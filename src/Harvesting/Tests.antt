-- ===== src/Harvesting/Tests.antt =====
-- Runs of AbstractHarvester (app/harvesters/abstract_harvester.py) on a sample source, and the
-- theorems at concrete inputs.
use svp_harvester.Harvesting.Dao.{
  get_harvesting_by_id, last_version, get_last_reference_by_source_identifier,
}
use svp_harvester.Harvesting.Model.{external_endpoint_failure, failed, running, updated, Row}
use svp_harvester.Harvesting.Harvester.{
  not_found_again, register_deleted_references, handle_error, handle_converted_result, process, run,
}
use svp_harvester.Harvesting.World.{harvesting_failed, Harvester, World}
use svp_harvester.Harvesting.Harvester.Ending.{IsEnded}
use svp_harvester.Harvesting.Harvester.Termination.{run-IsEnded}
use svp_harvester.Harvesting.Harvester.Deletions.{
  AreDeleted, register_deleted_references-AreDeleted,
}
use svp_harvester.Harvesting.Harvester.Errors.{handle_error-stale}
use svp_harvester.Harvesting.Sample.{
  harvesting, unreachable, Release, v9, article, semver-IsLawful, semver, converter, self, db,
  world, fetch,
}
use svp_harvester.Prelude.{nat_eq, false, none, some, [], ◌∷◌, ◌≡◌, refl, string_eq, true}
use svp_harvester.Prelude.Action.{ok}
use svp_harvester.Harvesting.Converter.{blank, failed_fields, is_blank}
use svp_harvester.Harvesting.Harvester.Reports.{handle_converted_result-reports}
use svp_harvester.Harvesting.Harvester.Idempotence.{process_up_to_date}
use svp_harvester.Harvesting.Harvester.Twice.{process_twice}
use svp_harvester.Harvesting.Recorder.History.{Grows}
use svp_harvester.Harvesting.Recorder.Consistency.{IsConsistent}
use svp_harvester.Harvesting.Harvester.Versions.{run-Grows, run-IsConsistent}

run-Grows_example : Grows db (run self semver converter fetch world).1.db
run-Grows_example = run-Grows self semver converter fetch world

db-IsConsistent : IsConsistent db
db-IsConsistent = record { reference_ids = tt; ordered = tt; event_ids = tt; event_rows = tt }

run-IsConsistent_example : IsConsistent (run self semver converter fetch world).1.db
run-IsConsistent_example = run-IsConsistent self semver converter fetch world db-IsConsistent

-- A harvester that is asked for the default event types.
abbrev quiet : Harvester Release
quiet = record self { event_types = [] }

abbrev stored : Row
stored = record {
  id = 0;
  version = 0;
  reference = record {
    source_identifier = "hal-1";
    harvester = "hal";
    harvester_version = "9.0.0";
    hash = "one";
    content = record blank { titles = some ("one" ∷ []) };
  };
}

handle_converted_result-reports_example :
    (handle_converted_result self stored.reference (some stored) "two" db).0
    ≡ some record { id = 0; type = updated; enhanced = false; reference_id = 0; harvesting_id = 1 }
unfolding string_eq
handle_converted_result-reports_example =
    (handle_converted_result-reports self stored.reference (some stored) "two" db).0

abbrev known : World
known = record world { db = record db { references = stored ∷ []; next_reference = 1 } }

known-latest : get_last_reference_by_source_identifier known.db "hal-1" "hal" ≡ some stored
unfolding get_last_reference_by_source_identifier string_eq last_version
known-latest = refl

process_up_to_date_example :
    process quiet semver converter article known ≡ (ok tt, record known { existing = stored ∷ [] })
unfolding string_eq
process_up_to_date_example =
    process_up_to_date quiet semver converter semver-IsLawful article v9 stored known refl refl refl
      known-latest record { hash = refl; release = refl }

absent : get_last_reference_by_source_identifier world.db "hal-1" "hal" ≡ none
unfolding get_last_reference_by_source_identifier last_version
absent = refl

filled_fields : failed_fields stored.reference ≡ []
unfolding failed_fields is_blank nat_eq
filled_fields = refl

process_twice_example :
    let once = (process quiet semver converter article world).1 in
    let twice = (process quiet semver converter article once).1 in
    (once.db.references ≡ stored ∷ []) × (twice.db ≡ once.db)
process_twice_example =
    process_twice quiet semver converter semver-IsLawful article v9 "one"
      (record blank { titles = some ("one" ∷ []) }) world refl refl refl refl refl refl
      filled_fields absent

stored_harvesting : get_harvesting_by_id world.db 1 ≡ some harvesting
unfolding get_harvesting_by_id nat_eq
stored_harvesting = refl

run-IsEnded_example : IsEnded self (run self semver converter fetch world)
run-IsEnded_example = run-IsEnded self semver converter fetch world (harvesting, stored_harvesting)

register_deleted_references-AreDeleted_example :
    (true ≡ true
      → AreDeleted 1
          (not_found_again self [] (stored ∷ []))
          known
          (register_deleted_references self (stored ∷ []) known))
    × (true ≡ false → register_deleted_references self (stored ∷ []) known ≡ (ok tt, known))
register_deleted_references-AreDeleted_example =
    register_deleted_references-AreDeleted self (stored ∷ []) known

-- The attribute `harvesting` was read when the run started.
abbrev started : World
started = record world { harvesting = some harvesting }

handle_error-stale_example :
    let r = handle_error self unreachable started in
    (r.0 ≡ ok tt)
    × (get_harvesting_by_id r.1.db 1 ≡ some (record harvesting { state = failed }))
    × (r.1.db.errors
        ≡ record { harvesting_id = 1; name = external_endpoint_failure; message = "unreachable" }
          ∷ [])
    × (r.1.queue ≡ some (harvesting_failed 1 running "unreachable" ∷ []))
handle_error-stale_example =
    handle_error-stale self unreachable started harvesting harvesting [] refl refl stored_harvesting
