-- ===== src/Harvesting/Harvester/Errors.antt =====
-- What `handle_error` of app/harvesters/abstract_harvester.py stores and what it puts in the queue.
use svp_harvester.Prelude.{some, List, [], ◌∷◌, ◌++◌, ◌≡◌, arith}
use svp_harvester.Prelude.Action.{ok, ◌>>=◌}
use svp_harvester.Harvesting.Model.{failed, Exception, Harvesting}
use svp_harvester.Harvesting.Dao.{
  get_harvesting_by_id, update_harvesting_state, add_harvesting_error,
}
use svp_harvester.Harvesting.Harvester.{
  handle_error, update_state, get_harvesting, current_harvesting,
}
use svp_harvester.Harvesting.World.{Harvester, World, Message, harvesting_failed, put_in_queue}
use svp_harvester.Harvesting.Harvester.Ending.{set_state-find}

module _ {Version : Type 0} (self : Harvester Version) where
  -- For a harvester that has read its harvesting before and has a queue, and whose harvesting is
  -- stored: an error is handled without another one, the stored harvesting has the state failed, the
  -- error is recorded, and the message behind those of the queue carries the state that was read
  -- before and not the state failed.
  pub handle_error-stale :
      (error : Exception) (w : World) (read stored : Harvesting) (messages : List Message)
      → w.harvesting ≡ some read
      → w.queue ≡ some messages
      → get_harvesting_by_id w.db self.harvesting_id ≡ some stored
      → let r = handle_error self error w in
        (r.0 ≡ ok tt)
        × (get_harvesting_by_id r.1.db self.harvesting_id ≡ some (record stored { state = failed }))
        × (r.1.db.errors
            ≡ record {
              harvesting_id = self.harvesting_id;
              name = error.kind;
              message = error.message;
            }
              ∷ w.db.errors)
        × (r.1.queue
            ≡ some (messages ++ harvesting_failed self.harvesting_id read.state error.message ∷ []))
  unfolding handle_error update_state get_harvesting current_harvesting put_in_queue
      update_harvesting_state add_harvesting_error get_harvesting_by_id ◌>>=◌
  handle_error-stale error w read stored messages cached queue found =
      ground (
        arith,
        cached,
        queue,
        set_state-find self.harvesting_id failed w.db.harvestings stored found,
      )
