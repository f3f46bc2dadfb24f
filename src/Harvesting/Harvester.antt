-- ===== src/Harvesting/Harvester.antt =====
-- `AbstractHarvester` of app/harvesters/abstract_harvester.py, with `event_types_or_default` of
-- app/api/dependencies/event_types.py. A harvesting runs alone: no other one writes between its
-- steps, and its own statements commit. The external calls enter by what `fetch_results` delivers
-- and by the converter, which may raise.
pub mod Induction
pub mod Process
pub mod Registration
pub mod States
pub mod Reports
pub mod Rounds
pub mod Idempotence
pub mod Twice
pub mod Versions
pub mod Ending
pub mod Termination
pub mod Deletions
pub mod Errors
use svp_harvester.Harvesting.World.{
  Message, harvesting_state, harvesting_failed, reference_event, Fetched, result, stop, Fetch,
  Harvester, World, Step, on_db, default_event_types, event_types_or_default, text_gtb, enqueue,
  put_in_queue, state_of, present, version_or_error, is_relevant,
}
use Prim.Native.Nat.{Ordering}
use Prim.Native.String.{compare}
use svp_harvester.Prelude.{
  ℕ, String, Bool, true, false, not, ◌&&◌, ◌||◌, Option, none, some, List, [], ◌∷◌, ◌++◌, filter,
  any, contains, ◌==◌, string_eq, if◌then◌else◌,
}
use svp_harvester.Prelude.Action.{
  Outcome, ok, raised, Action, pure, raise, lift, gets, modify, catch, ◌>>=◌, ◌>>◌,
}
use svp_harvester.Harvesting.Model.{
  EventType, created, updated, deleted, unchanged, State, running, completed, failed, event_type_eq,
  Kind, unexpected_format, Exception, Reference, Row, ReferenceEvent, Harvesting, Db,
}
use svp_harvester.Harvesting.Dao.{
  get_harvesting_by_id, update_harvesting_state, add_harvesting_error,
}
use svp_harvester.Harvesting.Recorder.{
  register_creation, register_update, register_unchanged, register_deletion, exists,
  get_matching_references_before_harvesting,
}
use svp_harvester.Harvesting.Converter.{Semver, Converter, other_error, build, convert}

module _ {Version : Type 0} (self : Harvester Version) where
  unfoldable pub update_state : State → Step Unit
  update_state state =
      modify (λ w. record w { db = update_harvesting_state self.harvesting_id state w.db })

  -- The attribute `harvesting` is read from the database if it is not set, or at a refresh.
  unfoldable pub current_harvesting : Bool → World → Option Harvesting
  current_harvesting refresh w = elim w.harvesting [
    | none ↦ get_harvesting_by_id w.db self.harvesting_id
    | some cached ↦ if refresh then get_harvesting_by_id w.db self.harvesting_id else some cached
  ]

  unfoldable pub get_harvesting : Bool → Step (Option Harvesting)
  get_harvesting refresh w =
      let harvesting = current_harvesting refresh w in
      (ok harvesting, record w { harvesting = harvesting })

  unfoldable pub notify_harvesting_state : Step Unit
  notify_harvesting_state = do
    harvesting ← get_harvesting true
    state ← lift (state_of harvesting)
    put_in_queue (harvesting_state self.harvesting_id state)

  -- The message reads the state from the attribute `harvesting`, without a refresh.
  unfoldable pub handle_error : Exception → Step Unit
  handle_error error = do
    update_state failed
    modify (λ w. record w { db = add_harvesting_error self.harvesting_id error w.db })
    harvesting ← get_harvesting false
    state ← lift (state_of harvesting)
    put_in_queue (harvesting_failed self.harvesting_id state error.message)

  abbrev pub requested : EventType → Bool
  requested event_type = contains (event_types_or_default self.event_types) event_type

  abbrev pub some_event : ReferenceEvent × Db → Option ReferenceEvent × Db
  some_event r = (some r.0, r.1)

  -- `_handle_converted_result`
  unfoldable pub handle_converted_result :
      Reference → Option Row → String → Db → Option ReferenceEvent × Db
  handle_converted_result new_ref none comparaison_hash db =
      if requested created
      then some_event (register_creation self.harvesting_id new_ref db)
      else (none, db)
  handle_converted_result new_ref (some old_ref) comparaison_hash db =
      let enhanced = text_gtb new_ref.harvester_version old_ref.harvester_version in
      let return_anyway = enhanced && self.fetch_enhancements in
      if not (comparaison_hash == old_ref.hash) && (requested updated || return_anyway)
      then some_event (register_update self.harvesting_id old_ref new_ref enhanced db)
      else if (comparaison_hash == old_ref.hash) && (requested unchanged || return_anyway)
      then some_event (register_unchanged self.harvesting_id old_ref new_ref enhanced db)
      else (none, db)

  unfoldable pub announce : Option ReferenceEvent → Step Unit
  announce none w = (ok tt, w)
  announce (some event) w = put_in_queue (reference_event event.id event.type) w

  -- The loop of `_register_deleted_references` over the references that were not found again.
  unfoldable pub register_deletions : List Row → Step Unit
  register_deletions [] = pure tt
  register_deletions (row ∷ rows) = do
    event ← on_db (register_deletion self.harvesting_id row)
    put_in_queue (reference_event event.id deleted)
    register_deletions rows

  abbrev pub not_found_again : List Row → List Row → List Row
  not_found_again existing =
      filter (λ row. not (any (λ r. row.source_identifier == r.source_identifier) existing))

  -- `_register_deleted_references`
  unfoldable pub register_deleted_references : List Row → Step Unit
  register_deleted_references previous w =
      if contains self.event_types deleted
      then register_deletions (not_found_again w.existing previous) w
      else (ok tt, w)

  module _ {Raw : Type 0} (semver : Semver Version) (converter : Converter Raw Version) where
    abbrev pub get_version : Outcome Exception Version
    get_version = version_or_error self.version

    abbrev pub parse_version : String → Outcome Exception Version
    parse_version text = elim (semver.parse text) [
      | none ↦ raised (other_error "not valid SemVer string")
      | some version ↦ ok version
    ]

    -- The hash that is compared with the stored one, and whether the version of the harvester has
    -- grown. A reference that is known joins `existing_references` first.
    unfoldable pub compare_with : Option Row → Reference → Raw → Step (String × Bool)
    compare_with none new_ref raw = pure (new_ref.hash, false)
    compare_with (some old_ref) new_ref raw = do
      modify (λ w. record w { existing = w.existing ++ old_ref ∷ [] })
      new_version ← lift (parse_version new_ref.harvester_version)
      old_version ← lift (parse_version old_ref.harvester_version)
      if semver.gtb new_version old_version
          then (do hash ← lift (converter.compute_hash raw old_version); pure (hash, true))
          else pure (new_ref.hash, false)

    abbrev pub needs_conversion : Option Row → String → Bool → Bool
    needs_conversion none comparaison_hash enhanced = true
    needs_conversion (some old_ref) comparaison_hash enhanced =
        not (comparaison_hash == old_ref.hash) || enhanced && self.fetch_enhancements

    -- The new fields are computed if the reference is new, if the source data have changed, or if
    -- the version of the harvester has grown and enhancements are fetched.
    unfoldable pub convert_if_needed :
        Raw → Reference → Option Row → String × Bool → Outcome Exception Reference
    convert_if_needed raw new_ref old_ref compared =
        if needs_conversion old_ref compared.0 compared.1
        then convert semver converter raw new_ref
        else ok new_ref

    -- The second half of the loop's body.
    unfoldable pub convert_and_register : Raw → Reference → Option Row → String × Bool → Step Unit
    convert_and_register raw new_ref old_ref compared = do
      converted ← lift (convert_if_needed raw new_ref old_ref compared)
      event ← on_db (handle_converted_result converted old_ref compared.0)
      announce event

    -- The body of the loop over the raw results, inside its `try`.
    unfoldable pub process : Raw → Step Unit
    process raw = do
      harvester_version ← lift get_version
      new_ref ← lift (build semver converter raw harvester_version)
      old_ref ← gets (λ w. exists new_ref w.db)
      compared ← compare_with old_ref new_ref raw
      convert_and_register raw new_ref old_ref compared

    abbrev pub is_unexpected_format : Exception → Bool
    is_unexpected_format error = elim error.kind [ unexpected_format ↦ true | _ ↦ false ]

    unfoldable pub report : Exception → Step Unit
    report error = if is_unexpected_format error then handle_error error else raise error

    -- One round: a result that could not be read is reported, and the loop goes on.
    unfoldable pub process_or_report : Raw → Step Unit
    process_or_report raw = catch (process raw) report

    abbrev pub generator_end : Option Exception → Step Unit
    generator_end none = pure tt
    generator_end (some error) = raise error

    unfoldable pub harvest : List (Fetched Raw) → Option Exception → Step Unit
    harvest [] failure = generator_end failure
    harvest (stop ∷ items) failure = pure tt
    harvest (result raw ∷ items) failure = process_or_report raw >> harvest items failure

    -- The block of `run` under `try`.
    unfoldable pub harvest_and_complete : Fetch Raw → List Row → Step Unit
    harvest_and_complete fetch previous = do
      harvest fetch.items fetch.failure
      register_deleted_references previous
      update_state completed
      notify_harvesting_state

    -- `run` once the harvesting is known. Every `except` clause hands the exception to
    -- `handle_error`.
    unfoldable pub start : Fetch Raw → Harvesting → Step Unit
    start fetch recorded w =
        let previous = get_matching_references_before_harvesting recorded self.entity_id w.db in
        catch (harvest_and_complete fetch previous) handle_error (record w { existing = [] })

    unfoldable pub run : Fetch Raw → Step Unit
    run fetch = do
      update_state running
      notify_harvesting_state
      harvesting ← get_harvesting false
      recorded ← lift (present harvesting)
      start fetch recorded
