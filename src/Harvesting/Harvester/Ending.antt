-- ===== src/Harvesting/Harvester/Ending.antt =====
-- How a run of AbstractHarvester (app/harvesters/abstract_harvester.py) ends: the state of its
-- harvesting.
use svp_harvester.Prelude.Action.{bind_of_ok, ◌>>◌, modify, ◌>>=◌, Outcome, Action, ok}
use svp_harvester.Prelude.{
  subst, inl, inr, [], ℕ, String, true, false, Option, none, some, List, ◌∷◌, find?, ◌==◌, nat_eq,
  string_eq, ◌≡◌, refl, ap, ◌∙◌, arith, Bool-cases, ◌⊎◌, sym,
}
use svp_harvester.Harvesting.Recorder.{
  create_reference, register_creation, register_update, register_unchanged, register_deletion,
}
use svp_harvester.Harvesting.Harvester.{
  register_deletions, handle_converted_result, notify_harvesting_state, handle_error, update_state,
  get_harvesting, current_harvesting, update_harvesting_state, add_harvesting_error,
}
use svp_harvester.Harvesting.World.{Harvester, World, on_db, put_in_queue}
use svp_harvester.Harvesting.Dao.{
  update_harvesting_state, add_harvesting_error, get_harvesting_by_id, set_state,
  create_reference_event,
}
use svp_harvester.Harvesting.Harvester.States.{
  update_state-db, notify_harvesting_state-db, handle_error-db,
}
use svp_harvester.Harvesting.Model.{
  State, event_type_eq, Reference, Row, Harvesting, Db, Exception, failed, completed,
}

-- The harvesting with that id is stored.
abbrev pub IsRecorded : ℕ → Db → Type 0
IsRecorded id db = (h : Harvesting) × (get_harvesting_by_id db id ≡ some h)

pub set_state-find :
    (id : ℕ) (state : State) (hs : List Harvesting) (h : Harvesting)
    → find? (λ x. x.id == id) hs ≡ some h
    → find? (λ x. x.id == id) (set_state id state hs) ≡ some (record h { state = state })
unfolding set_state
set_state-find id state [] h e = ground (arith, e)
set_state-find id state (x ∷ xs) h e = go (Bool-cases (x.id == id)) (set_state-find id state xs h)
  where
    go :
        ((x.id == id) ≡ true) ⊎ ((x.id == id) ≡ false)
        → (find? (λ y. y.id == id) xs ≡ some h
            → find? (λ y. y.id == id) (set_state id state xs) ≡ some (record h { state = state }))
        → find? (λ y. y.id == id) (set_state id state (x ∷ xs)) ≡ some (record h { state = state })
    go (inl same) ih = ground (arith, e, same)
    go (inr differ) ih = ground (arith, e, differ, ih)

module _ {Version : Type 0} (self : Harvester Version) where
  abbrev pub IsLive : World → Type 0
  IsLive w = IsRecorded self.harvesting_id w.db

  pub handle_converted_result-harvestings :
      (ref : Reference) (old_ref : Option Row) (hash : String) (db : Db)
      → (handle_converted_result self ref old_ref hash db).1.harvestings ≡ db.harvestings
  unfolding handle_converted_result register_creation register_update register_unchanged
      create_reference create_reference_event
  handle_converted_result-harvestings ref none hash db = ground arith
  handle_converted_result-harvestings ref (some old_ref) hash db = ground arith

  pub register_deletions-harvestings :
      (rows : List Row) (w : World)
      → (register_deletions self rows w).1.db.harvestings ≡ w.db.harvestings
  unfolding register_deletions ◌>>=◌ put_in_queue on_db register_deletion create_reference_event
  register_deletions-harvestings [] w = refl
  register_deletions-harvestings (row ∷ rows) w = register_deletions-harvestings rows _

  pub IsRecorded-same :
      (id : ℕ) (a b : Db) → b.harvestings ≡ a.harvestings → IsRecorded id a → IsRecorded id b
  unfolding get_harvesting_by_id
  IsRecorded-same id a b same h = (h.0, ap (find? (λ x. x.id == id)) same ∙ h.1)

  pub IsRecorded-set :
      (state : State) (db : Db)
      → (h : Harvesting) → get_harvesting_by_id db self.harvesting_id ≡ some h
      → get_harvesting_by_id
          (record db { harvestings = set_state self.harvesting_id state db.harvestings })
          self.harvesting_id
        ≡ some (record h { state = state })
  unfolding get_harvesting_by_id
  IsRecorded-set state db h e = set_state-find self.harvesting_id state db.harvestings h e

  -- The method returned, and the harvesting is stored as completed or as failed.
  pub record IsEnded (r : Outcome Exception (Unit {0}) × World) : Type 0 where
    pub returned : r.0 ≡ ok tt
    pub harvesting : Harvesting
    pub stored : get_harvesting_by_id r.1.db self.harvesting_id ≡ some harvesting
    pub terminal : (harvesting.state ≡ completed) ⊎ (harvesting.state ≡ failed)

  pub notify-returned : (w : World) → IsLive w → (notify_harvesting_state self w).0 ≡ ok tt
  unfolding notify_harvesting_state get_harvesting current_harvesting put_in_queue ◌>>=◌
  notify-returned w live = ground (arith, live.1)

  pub handle_error-returned :
      (error : Exception) (w : World) → IsLive w → (handle_error self error w).0 ≡ ok tt
  unfolding handle_error update_state get_harvesting current_harvesting put_in_queue
      update_harvesting_state add_harvesting_error get_harvesting_by_id ◌>>=◌
  handle_error-returned error w live =
      ground (arith, set_state-find self.harvesting_id failed w.db.harvestings (live.0) (live.1))

  pub handle_error-IsEnded :
      (error : Exception) (w : World) → IsLive w → IsEnded (handle_error self error w)
  handle_error-IsEnded error w live = record {
    returned = handle_error-returned error w live;
    harvesting = record (live.0) { state = failed };
    stored =
        ap (λ (db : Db). get_harvesting_by_id db self.harvesting_id)
          (sym (handle_error-db self error w))
        ∙ unfold get_harvesting_by_id in
          set_state-find self.harvesting_id failed w.db.harvestings (live.0) (live.1);
    terminal = inr refl;
  }

  unfoldable pub complete : Action World Exception (Unit {0})
  complete = do update_state self completed; notify_harvesting_state self

  pub complete-IsEnded : (w : World) → IsLive w → IsEnded (complete w)
  unfolding complete
  complete-IsEnded w live =
      let t = (update_state self completed w).1 in
      let set = IsRecorded-set completed w.db live.0 live.1 in
      let stored =
        ap (λ (db : Db). get_harvesting_by_id db self.harvesting_id)
          (sym (update_state-db self completed w))
        ∙ set in
      let e =
        bind_of_ok (update_state self completed) (λ _. notify_harvesting_state self) {s = w} {t = t}
          {a = tt} (unfold update_state modify in refl) in
      subst IsEnded (sym e) record {
        returned = notify-returned t (record (live.0) { state = completed }, stored);
        harvesting = record (live.0) { state = completed };
        stored =
            ap (λ (db : Db). get_harvesting_by_id db self.harvesting_id)
              (sym (notify_harvesting_state-db self t))
            ∙ stored;
        terminal = inl refl;
      }
