-- ===== src/Harvesting/Harvester/Reports.antt =====
-- Which event `_handle_converted_result` of app/harvesters/abstract_harvester.py returns.
use svp_harvester.Prelude.{
  not, ◌&&◌, ◌||◌, ◌∷◌, ℕ, ◌+◌, String, Bool, false, Option, none, some, ◌≡◌, arith, ◌==◌,
  string_eq, if◌then◌else◌,
}
use svp_harvester.Harvesting.Model.{
  EventType, created, updated, unchanged, event_type_eq, Reference, Row, ReferenceEvent, Db,
}
use svp_harvester.Harvesting.Dao.{create_reference_event}
use svp_harvester.Harvesting.Recorder.{
  create_reference, register_creation, register_update, register_unchanged,
}
use svp_harvester.Harvesting.Harvester.{handle_converted_result, requested, true}
use svp_harvester.Harvesting.World.{Harvester, text_gtb}

-- The change that the comparison with the last stored version shows.
abbrev pub change : Option Row → String → EventType
change none hash = created
change (some old_ref) hash = if hash == old_ref.hash then unchanged else updated

-- The version of the harvester is later than that of the stored reference, as a text.
abbrev pub is_enhanced : Reference → Option Row → Bool
is_enhanced new_ref none = false
is_enhanced new_ref (some old_ref) = text_gtb new_ref.harvester_version old_ref.harvester_version

-- The row that an event is about: the stored one if neither the source nor the harvester changed,
-- otherwise the new reference under the next version.
abbrev pub reported_row : Reference → Option Row → String → ℕ → Row
reported_row new_ref none hash id = record { id = id; version = 0; reference = new_ref }
reported_row new_ref (some old_ref) hash id =
    if (hash == old_ref.hash) && not (is_enhanced new_ref (some old_ref))
    then old_ref
    else record { id = id; version = old_ref.version + 1; reference = new_ref }

-- The reported row has to be stored, unless it is the stored one.
abbrev pub is_stored_again : Reference → Option Row → String → Bool
is_stored_again new_ref none hash = true
is_stored_again new_ref (some old_ref) hash =
    not (hash == old_ref.hash) || is_enhanced new_ref (some old_ref)

module _ {Version : Type 0} (self : Harvester Version) where
  abbrev pub is_reported : Reference → Option Row → String → Bool
  is_reported new_ref old_ref hash =
      requested self (change old_ref hash) || is_enhanced new_ref old_ref && self.fetch_enhancements

  abbrev pub expected_event : Reference → Option Row → String → Db → ReferenceEvent
  expected_event new_ref old_ref hash db = record {
    id = db.next_event;
    type = change old_ref hash;
    enhanced = is_enhanced new_ref old_ref;
    reference_id = (reported_row new_ref old_ref hash db.next_reference).id;
    harvesting_id = self.harvesting_id;
  }

  pub handle_converted_result-reports :
      (new_ref : Reference) (old_ref : Option Row) (hash : String) (db : Db)
      → let event = expected_event new_ref old_ref hash db in
        let reported = is_reported new_ref old_ref hash in
        let r = handle_converted_result self new_ref old_ref hash db in
        (r.0 ≡ (if reported then some event else none))
        × (r.1.events ≡ (if reported then event ∷ db.events else db.events))
        × (r.1.references ≡ (
            if reported && is_stored_again new_ref old_ref hash
            then reported_row new_ref old_ref hash db.next_reference ∷ db.references
            else db.references))
  unfolding handle_converted_result register_creation register_update register_unchanged
      create_reference create_reference_event
  handle_converted_result-reports new_ref none hash db = ground arith
  handle_converted_result-reports new_ref (some old_ref) hash db = ground arith
