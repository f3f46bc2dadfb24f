-- ===== src/Harvesting/Harvester/Versions.antt =====
-- A run of AbstractHarvester (app/harvesters/abstract_harvester.py) only adds references and events,
-- and keeps the tables consistent.
use svp_harvester.Harvesting.Harvester.States.{
  update_state-db, get_harvesting-db, notify_harvesting_state-db, handle_error-db,
}
use svp_harvester.Harvesting.Harvester.Process.{process-Preserves, registered-db}
use svp_harvester.Harvesting.Harvester.Induction.{run-Preserves}
use svp_harvester.Harvesting.Converter.{Semver, Converter}
use svp_harvester.Harvesting.Harvester.{
  run, false, not_found_again, register_deletions, handle_converted_result,
}
use svp_harvester.Harvesting.World.{Fetch, Harvester, World, put_in_queue, on_db}
use svp_harvester.Harvesting.Recorder.Consistency.{
  previous_references-IsIn, register_deletion-IsConsistent, IsConsistent, IsIn,
}
use svp_harvester.Harvesting.Recorder.Registering.{
  register_creation-IsConsistent, register_update-IsConsistent, register_unchanged-IsConsistent,
}
use svp_harvester.Prelude.{
  All-filter, [], subst, any-Extends, All-map, String, List, ◌∷◌, All, refl, ◌==◌, string_eq,
  nat_eq,
}
use svp_harvester.Harvesting.Model.{Harvesting, HarvestingError, event_type_eq, Reference, Row, Db}
use svp_harvester.Harvesting.Recorder.{register_deletion, exists}
use svp_harvester.Harvesting.Recorder.History.{
  Grows, Grows-refl, Grows-trans, register_creation-Grows, register_update-Grows,
  register_unchanged-Grows, register_deletion-Grows,
}
use svp_harvester.Harvesting.Harvester.Registration.{handle_converted_result-rule}
use svp_harvester.Prelude.Action.{◌>>=◌}

module _ {Version : Type 0} (self : Harvester Version) where
  handle_converted_result-Grows :
      (ref : Reference) (hash : String) (db : Db)
      → Grows db (handle_converted_result self ref (exists ref db) hash db).1
  handle_converted_result-Grows ref hash db =
      handle_converted_result-rule self (Grows db) ref db (Grows-refl db)
        (λ _. register_creation-Grows self.harvesting_id db ref)
        (λ old_ref enhanced _. register_update-Grows self.harvesting_id db old_ref ref enhanced)
        (λ old_ref enhanced _. register_unchanged-Grows self.harvesting_id db old_ref ref enhanced)
        (exists ref db) hash refl

  handle_converted_result-IsConsistent :
      (ref : Reference) (hash : String) (db : Db)
      → IsConsistent db
      → IsConsistent (handle_converted_result self ref (exists ref db) hash db).1
  handle_converted_result-IsConsistent ref hash db c =
      handle_converted_result-rule self IsConsistent ref db c
        (register_creation-IsConsistent self.harvesting_id ref db c)
        (register_update-IsConsistent self.harvesting_id ref db c)
        (register_unchanged-IsConsistent self.harvesting_id ref db c) (exists ref db) hash refl

  -- The tables are consistent and have only grown since `start`, and the references of the last
  -- harvesting stand in them.
  record IsSound (start : Db) (previous : List Row) (db : Db) : Type 0 where
    grown : Grows start db
    tables : IsConsistent start → IsConsistent db
    rows : All (λ r. IsIn db.references r.id) previous

  IsIn-Grows :
      {a b : Db} (rows : List Row)
      → Grows a b
      → All (λ r. IsIn a.references r.id) rows
      → All (λ r. IsIn b.references r.id) rows
  IsIn-Grows rows g h =
      All-map _ _ (λ r found. any-Extends (λ q. q.id == r.id) g.references found) rows h

  IsSound-handled :
      (start : Db) (previous : List Row) (ref : Reference) (hash : String) (db : Db)
      → IsSound start previous db
      → IsSound start previous (handle_converted_result self ref (exists ref db) hash db).1
  IsSound-handled start previous ref hash db s =
      let g = handle_converted_result-Grows ref hash db in
      record {
        grown = Grows-trans s.grown g;
        tables = λ c. handle_converted_result-IsConsistent ref hash db (s.tables c);
        rows = IsIn-Grows previous g s.rows;
      }

  IsSound-deleted :
      (start : Db) (previous : List Row) (row : Row) (db : Db)
      → IsIn db.references row.id
      → IsSound start previous db
      → IsSound start previous (register_deletion self.harvesting_id row db).1
  IsSound-deleted start previous row db found s =
      let g = register_deletion-Grows self.harvesting_id db row in
      record {
        grown = Grows-trans s.grown g;
        tables = λ c. register_deletion-IsConsistent self.harvesting_id db (s.tables c) row found;
        rows = IsIn-Grows previous g s.rows;
      }

  IsSound-logged :
      (start : Db) (previous : List Row) (db : Db) (harvestings : List Harvesting)
      (errors : List HarvestingError)
      → IsSound start previous db
      → IsSound start previous (record db { harvestings = harvestings; errors = errors })
  IsSound-logged start previous db harvestings errors s = record {
    grown = record { references = s.grown.references; events = s.grown.events };
    tables = λ c.
        let t = s.tables c in
        record {
          reference_ids = t.reference_ids;
          ordered = t.ordered;
          event_ids = t.event_ids;
          event_rows = t.event_rows;
        };
    rows = s.rows;
  }

  register_deletions-IsSound :
      (start : Db) (previous rows : List Row) (w : World)
      → All (λ r. IsIn w.db.references r.id) rows
      → IsSound start previous w.db
      → IsSound start previous (register_deletions self rows w).1.db
  unfolding register_deletions ◌>>=◌ put_in_queue on_db
  register_deletions-IsSound start previous [] w found s = s
  register_deletions-IsSound start previous (row ∷ rows) w found s =
      register_deletions-IsSound start previous rows _
        (IsIn-Grows rows (register_deletion-Grows self.harvesting_id w.db row) found.1)
        (IsSound-deleted start previous row w.db found.0 s)

  module _ {Raw : Type 0} (semver : Semver Version) (converter : Converter Raw Version) where
    run-IsSound :
        (fetch : Fetch Raw) (start : Db) (w : World)
        → IsSound start [] w.db
        → IsSound start [] (run self semver converter fetch w).1.db
    run-IsSound fetch start =
        run-Preserves self semver converter (λ previous w. IsSound start previous w.db)
          (λ previous state w s.
            subst (IsSound start previous) (update_state-db self state w)
              (IsSound-logged start previous w.db _ _ s))
          (λ w s. subst (IsSound start []) (get_harvesting-db self false w) s)
          (λ previous w s. subst (IsSound start previous) (notify_harvesting_state-db self w) s)
          (λ previous error w s.
            subst (IsSound start previous) (handle_error-db self error w)
              (IsSound-logged start previous w.db _ _ s))
          (λ previous.
            process-Preserves self semver converter (λ w. IsSound start previous w.db)
              (λ existing w s. s)
              (λ ref hash w s.
                subst (IsSound start previous) (registered-db self (exists ref w.db) ref hash w)
                  (IsSound-handled start previous ref hash w.db s)))
          (λ previous existing w s.
            register_deletions-IsSound start previous (not_found_again self existing previous) w
              (All-filter _ _ previous s.rows) s)
          (λ recorded w s. record {
            grown = s.grown;
            tables = s.tables;
            rows = previous_references-IsIn recorded self.entity_id w.db;
          })
          (λ previous w s. record { grown = s.grown; tables = s.tables; rows = tt }) fetch

    IsSound-start : (db : Db) → IsSound db [] db
    IsSound-start db = record { grown = Grows-refl db; tables = λ c. c; rows = tt }

    -- A run, whatever it fetches and wherever it fails, changes and removes no stored reference and
    -- no event: the tables afterwards are new rows in front of the old ones.
    pub run-Grows :
        (fetch : Fetch Raw) (w : World) → Grows w.db (run self semver converter fetch w).1.db
    run-Grows fetch w = (run-IsSound fetch w.db w (IsSound-start w.db)).grown

    -- From consistent tables a run, whatever it fetches and wherever it fails, leaves consistent
    -- tables: ids are below their sequences, a reference that is stored later under the same source
    -- identifier and harvester has a higher version, and each event is about a stored reference.
    pub run-IsConsistent :
        (fetch : Fetch Raw) (w : World)
        → IsConsistent w.db
        → IsConsistent (run self semver converter fetch w).1.db
    run-IsConsistent fetch w c = (run-IsSound fetch w.db w (IsSound-start w.db)).tables c
