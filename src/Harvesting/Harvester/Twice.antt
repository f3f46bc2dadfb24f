-- ===== src/Harvesting/Harvester/Twice.antt =====
-- A new reference that is harvested twice (AbstractHarvester.run of
-- app/harvesters/abstract_harvester.py).
use mathlib.Core.Option.{none-ne-some}
use svp_harvester.Prelude.{
  String, true, false, Option, none, some, [], ◌∷◌, ◌≡◌, refl, arith, string_eq, ap, ◌∙◌, ℕ, sym,
}
use svp_harvester.Prelude.Action.{Outcome, ok, pure, modify}
use svp_harvester.Harvesting.Model.{
  created, event_type_eq, Exception, Content, Reference, ReferenceEvent, Db, unchanged,
}
use svp_harvester.Harvesting.Dao.{get_last_reference_by_source_identifier, create_reference_event}
use svp_harvester.Harvesting.Recorder.Lookup.{exists-create_reference}
use svp_harvester.Harvesting.Recorder.{exists, register_creation, create_reference}
use svp_harvester.Harvesting.Converter.{
  Semver, IsLawful, Converter, convert, failed_fields, validate_reference,
}
use svp_harvester.Harvesting.Harvester.{
  process, compare_with, convert_if_needed, announce, handle_converted_result, requested,
}
use svp_harvester.Harvesting.World.{Harvester, World, put_in_queue}
use svp_harvester.Harvesting.Harvester.Rounds.{process_round}
use svp_harvester.Harvesting.Harvester.Idempotence.{
  built, build-built, IsUpToDate, process_up_to_date,
}

module _ {Version Raw : Type 0} (self : Harvester Version) (semver : Semver Version)
    (converter : Converter Raw Version) (lawful : IsLawful semver) where
  -- What `convert` makes of a raw result: the built reference with its content.
  abbrev pub filled : Raw → Version → String → Content → Reference
  filled raw version hash content = record (built self semver converter lawful raw version hash) {
    content = content;
  }

  convert-filled :
      (raw : Raw) (version : Version) (hash : String) (content : Content)
      → let new_ref = built self semver converter lawful raw version hash in
        converter.convert raw new_ref ≡ ok content
        → failed_fields (filled raw version hash content) ≡ []
        → convert_if_needed self semver converter raw new_ref none (hash, false)
          ≡ ok (filled raw version hash content)
  unfolding convert_if_needed convert validate_reference
  convert-filled raw version hash content c valid = ground (arith, c, valid)

  handle_converted_result-new :
      (ref : Reference) (hash : String) (db : Db)
      → requested self created ≡ true
      → (handle_converted_result self ref none hash db).1
        ≡ (register_creation self.harvesting_id ref db).1
  unfolding handle_converted_result
  handle_converted_result-new ref hash db asked = rw asked

  announce-db' : (event : Option ReferenceEvent) (w : World) → (announce self event w).1.db ≡ w.db
  unfolding announce put_in_queue modify
  announce-db' none w = refl
  announce-db' (some event) w = refl

  process_new :
      (raw : Raw) (version : Version) (hash : String) (content : Content) (w : World)
      → self.version ≡ some version
      → requested self created ≡ true
      → converter.compute_hash raw version ≡ ok hash
      → converter.convert raw (built self semver converter lawful raw version hash) ≡ ok content
      → failed_fields (filled raw version hash content) ≡ []
      → get_last_reference_by_source_identifier w.db
          (converter.source_identifier raw)
          converter.harvester
        ≡ none
      → (process self semver converter raw w).1.db
        ≡ (register_creation self.harvesting_id (filled raw version hash content) w.db).1
  process_new raw version hash content w v asked h c valid absent =
      let new_ref = built self semver converter lawful raw version hash in
      let ref = filled raw version hash content in
      let r = handle_converted_result self ref none hash w.db in
      ap (λ (x : Outcome Exception (Unit {0}) × World). x.1.db)
        (process_round self semver converter raw version new_ref ref none w w hash false v
          (build-built self semver converter lawful raw version hash h) (unfold exists in absent)
          (unfold compare_with pure in refl) (convert-filled raw version hash content c valid))
      ∙ announce-db' r.0 (record w { db = r.1 })
      ∙ handle_converted_result-new ref hash w.db asked

  found_again :
      (harvesting_id : ℕ) (ref : Reference) (db : Db)
      → exists ref db ≡ none
      → exists ref (register_creation harvesting_id ref db).1
        ≡ some (create_reference ref none db).0
  unfolding register_creation create_reference_event exists get_last_reference_by_source_identifier
  found_again harvesting_id ref db absent =
      exists-create_reference ref none db (λ best e. absurd (none-ne-some best (sym absent ∙ e)))

  up_to_date :
      (raw : Raw) (version : Version) (hash : String) (content : Content) (db : Db)
      → converter.compute_hash raw version ≡ ok hash
      → IsUpToDate self semver converter lawful raw version
          (create_reference (filled raw version hash content) none db).0
  unfolding create_reference
  up_to_date raw version hash content db h = record { hash = h; release = refl }

  -- For a source identifier that is not stored yet, a raw result that hashes, converts and passes
  -- the check, and a harvester whose version is not later than itself, if created references are
  -- requested and unchanged ones are not: the first round stores the converted reference under
  -- version 0, in front of the old ones, and a second round on the same raw result leaves the tables
  -- as the first round left them.
  pub process_twice :
      (raw : Raw) (version : Version) (hash : String) (content : Content) (w : World)
      → self.version ≡ some version
      → semver.gtb version version ≡ false
      → requested self created ≡ true
      → requested self unchanged ≡ false
      → converter.compute_hash raw version ≡ ok hash
      → converter.convert raw (built self semver converter lawful raw version hash) ≡ ok content
      → failed_fields (filled raw version hash content) ≡ []
      → get_last_reference_by_source_identifier w.db
          (converter.source_identifier raw)
          converter.harvester
        ≡ none
      → let once = (process self semver converter raw w).1 in
        let twice = (process self semver converter raw once).1 in
        (once.db.references
          ≡ record {
            id = w.db.next_reference;
            version = 0;
            reference = filled raw version hash content;
          }
            ∷ w.db.references)
        × (twice.db ≡ once.db)
  process_twice raw version hash content w v irrefl asked silent h c valid absent =
      let ref = filled raw version hash content in
      let once = process_new raw version hash content w v asked h c valid absent in
      let row = (create_reference ref none w.db).0 in
      (
        ap (λ (db : Db). db.references) once
            ∙ unfold register_creation create_reference create_reference_event in refl,
        ap (λ (x : Outcome Exception (Unit {0}) × World). x.1.db)
            (process_up_to_date self semver converter lawful raw version row
              (process self semver converter raw w).1 v irrefl silent
              (unfold exists in
                ap (exists ref) once
                ∙ found_again self.harvesting_id ref w.db (unfold exists in absent))
              (up_to_date raw version hash content w.db h)),
      )
