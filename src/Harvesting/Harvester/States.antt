-- ===== src/Harvesting/Harvester/States.antt =====
-- What the bookkeeping methods of AbstractHarvester (app/harvesters/abstract_harvester.py) do to the
-- tables: they touch the harvesting and its errors, and nothing else.
use svp_harvester.Prelude.{Bool, ◌∷◌, ◌≡◌, refl, arith}
use svp_harvester.Prelude.Action.{modify, ◌>>=◌}
use svp_harvester.Harvesting.Model.{State, failed, Exception}
use svp_harvester.Harvesting.Dao.{update_harvesting_state, add_harvesting_error, set_state}
use svp_harvester.Harvesting.Harvester.{
  update_state, get_harvesting, notify_harvesting_state, handle_error,
}
use svp_harvester.Harvesting.World.{Harvester, World, put_in_queue}

module _ {Version : Type 0} (self : Harvester Version) where
  pub update_state-db :
      (state : State) (w : World)
      → record w.db { harvestings = set_state self.harvesting_id state w.db.harvestings }
        ≡ (update_state self state w).1.db
  unfolding update_state modify update_harvesting_state
  update_state-db state w = refl

  pub get_harvesting-db : (refresh : Bool) (w : World) → w.db ≡ (get_harvesting self refresh w).1.db
  unfolding get_harvesting
  get_harvesting-db refresh w = ground arith

  pub notify_harvesting_state-db : (w : World) → w.db ≡ (notify_harvesting_state self w).1.db
  unfolding notify_harvesting_state get_harvesting put_in_queue ◌>>=◌
  notify_harvesting_state-db w = ground arith

  pub handle_error-db :
      (error : Exception) (w : World)
      → record w.db {
        harvestings = set_state self.harvesting_id failed w.db.harvestings;
        errors =
            record {
              harvesting_id = self.harvesting_id;
              name = error.kind;
              message = error.message;
            }
            ∷ w.db.errors;
      }
        ≡ (handle_error self error w).1.db
  unfolding handle_error update_state get_harvesting put_in_queue update_harvesting_state
      add_harvesting_error ◌>>=◌
  handle_error-db error w = ground arith
