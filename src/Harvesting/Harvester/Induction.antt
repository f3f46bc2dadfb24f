-- ===== src/Harvesting/Harvester/Induction.antt =====
-- A rule for `AbstractHarvester.run`: what each of its statements keeps, a whole run keeps.
use svp_harvester.Prelude.{false, Option, none, some, List, [], ◌∷◌, Bool-cases, contains, inl, inr}
use svp_harvester.Prelude.Action.{Preserves, Preserves-bind, Preserves-catch, lift, pure, raise}
use svp_harvester.Harvesting.Model.{
  State, completed, running, deleted, event_type_eq, Exception, Row, Harvesting,
}
use svp_harvester.Harvesting.Recorder.{get_matching_references_before_harvesting}
use svp_harvester.Harvesting.Converter.{Semver, Converter}
use svp_harvester.Harvesting.Harvester.{
  update_state, notify_harvesting_state, get_harvesting, handle_error, process, process_or_report,
  is_unexpected_format, register_deletions, register_deleted_references, harvest,
  harvest_and_complete, run, start, report, not_found_again,
}
use svp_harvester.Harvesting.World.{Harvester, World, Fetch, Fetched, result, stop, present}

module _ {Version Raw : Type 0} (self : Harvester Version) (semver : Semver Version)
    (converter : Converter Raw Version) (P : World → Type 0)
    (keep_state : (state : State) → Preserves P (update_state self state))
    (keep_notify : Preserves P (notify_harvesting_state self))
    (keep_error : (error : Exception) → Preserves P (handle_error self error))
    (keep_process : (raw : Raw) → Preserves P (process self semver converter raw)) where
  report-Preserves : (error : Exception) → Preserves P (report self semver converter error)
  unfolding report raise
  report-Preserves error w h =
      elim (Bool-cases (is_unexpected_format self semver converter error)) [
        | inl e ↦ rw e (keep_error error w h)
        | inr e ↦ rw e h
      ]

  pub process_or_report-Preserves :
      (raw : Raw) → Preserves P (process_or_report self semver converter raw)
  unfolding process_or_report
  process_or_report-Preserves raw =
      Preserves-catch (process self semver converter raw) (report self semver converter)
        (keep_process raw) report-Preserves

  pub harvest-Preserves :
      (items : List (Fetched Raw)) (failure : Option Exception)
      → Preserves P (harvest self semver converter items failure)
  unfolding harvest pure raise
  harvest-Preserves [] none w h = h
  harvest-Preserves [] (some error) w h = h
  harvest-Preserves (stop ∷ items) failure w h = h
  harvest-Preserves (result raw ∷ items) failure w h =
      Preserves-bind (process_or_report self semver converter raw) _
        (process_or_report-Preserves raw) (λ _. harvest-Preserves items failure) w h

  pub register_deleted_references-Preserves :
      (previous : List Row)
      → ((existing : List Row)
          → Preserves P (register_deletions self (not_found_again self existing previous)))
      → Preserves P (register_deleted_references self previous)
  unfolding register_deleted_references
  register_deleted_references-Preserves previous keep_deletions w h =
      elim (Bool-cases (contains self.event_types deleted)) [
        | inl e ↦ rw e (keep_deletions w.existing w h)
        | inr e ↦ rw e h
      ]

  pub harvest_and_complete-Preserves :
      (fetch : Fetch Raw) (previous : List Row)
      → ((existing : List Row)
          → Preserves P (register_deletions self (not_found_again self existing previous)))
      → Preserves P (harvest_and_complete self semver converter fetch previous)
  unfolding harvest_and_complete
  harvest_and_complete-Preserves fetch previous keep_deletions =
      Preserves-bind (harvest self semver converter fetch.items fetch.failure) _
        (harvest-Preserves fetch.items fetch.failure)
        λ _.
          Preserves-bind (register_deleted_references self previous) _
            (register_deleted_references-Preserves previous keep_deletions)
            λ _.
              Preserves-bind (update_state self completed) _ (keep_state completed) λ _. keep_notify

-- The invariant may name the references of the last completed harvesting once they are read.
module _ {Version Raw : Type 0} (self : Harvester Version) (semver : Semver Version)
    (converter : Converter Raw Version) (P : List Row → World → Type 0)
    (keep_state : (previous : List Row) (state : State)
      → Preserves (P previous) (update_state self state))
    (keep_get : Preserves (P []) (get_harvesting self false))
    (keep_notify : (previous : List Row) → Preserves (P previous) (notify_harvesting_state self))
    (keep_error : (previous : List Row) (error : Exception)
      → Preserves (P previous) (handle_error self error))
    (keep_process : (previous : List Row) (raw : Raw)
      → Preserves (P previous) (process self semver converter raw))
    (keep_deletions : (previous existing : List Row)
      → Preserves (P previous) (register_deletions self (not_found_again self existing previous)))
    (begin : (recorded : Harvesting) (w : World)
      → P [] w
      → P
          (get_matching_references_before_harvesting recorded self.entity_id w.db)
          (record w { existing = [] }))
    (forget : (previous : List Row) (w : World) → P previous w → P [] w) where
  start-Preserves :
      (fetch : Fetch Raw) (recorded : Harvesting)
      → Preserves (P []) (start self semver converter fetch recorded)
  unfolding start
  start-Preserves fetch recorded w h =
      let previous = get_matching_references_before_harvesting recorded self.entity_id w.db in
      forget previous _ (
        Preserves-catch (harvest_and_complete self semver converter fetch previous)
          (handle_error self)
          (harvest_and_complete-Preserves self semver converter (P previous) (keep_state previous)
            (keep_notify previous) (keep_error previous) (keep_process previous) fetch previous
            (keep_deletions previous))
          (keep_error previous) (record w { existing = [] }) (begin recorded w h))

  pub run-Preserves : (fetch : Fetch Raw) → Preserves (P []) (run self semver converter fetch)
  unfolding run
  run-Preserves fetch = Preserves-bind (update_state self running) _ (keep_state [] running) λ _.
      Preserves-bind (notify_harvesting_state self) _ (keep_notify []) λ _.
        Preserves-bind (get_harvesting self false) _ keep_get λ harvesting.
          Preserves-bind (lift (present harvesting)) _ (λ w h. unfold lift in h)
            λ recorded. start-Preserves fetch recorded
