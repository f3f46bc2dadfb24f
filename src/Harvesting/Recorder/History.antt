-- ===== src/Harvesting/Recorder/History.antt =====
-- The tables of references and events are append-only under ReferencesRecorder
-- (app/db/references/references_recorder.py): no stored row is changed or removed.
use svp_harvester.Prelude.{
  ℕ, ◌+◌, Bool, true, false, Option, none, some, Extends, Extends-refl, Extends-cons, Extends-trans,
}
use svp_harvester.Harvesting.Model.{EventType, Reference, Row, Db}
use svp_harvester.Harvesting.Dao.{create_reference_event}
use svp_harvester.Harvesting.Recorder.{
  create_reference, register_creation, register_update, register_unchanged, register_deletion,
}

pub record Grows (old new : Db) : Type 0 where
  pub references : Extends old.references new.references
  pub events : Extends old.events new.events

pub Grows-refl : (db : Db) → Grows db db
Grows-refl db = record { references = Extends-refl db.references; events = Extends-refl db.events }

pub Grows-trans : {a b c : Db} → Grows a b → Grows b c → Grows a c
Grows-trans g h = record {
  references = Extends-trans g.references h.references;
  events = Extends-trans g.events h.events;
}

create_reference-Grows :
    (ref : Reference) (version : Option ℕ) (db : Db) → Grows db (create_reference ref version db).1
unfolding create_reference
create_reference-Grows ref version db = record {
  references = Extends-cons (create_reference ref version db).0 (Extends-refl db.references);
  events = Extends-refl db.events;
}

create_reference_event-Grows :
    (row : Row) (harvesting_id : ℕ) (type : EventType) (enhanced : Bool) (db : Db)
    → Grows db (create_reference_event row harvesting_id type enhanced db).1
unfolding create_reference_event
create_reference_event-Grows row harvesting_id type enhanced db = record {
  references = Extends-refl db.references;
  events =
      Extends-cons (create_reference_event row harvesting_id type enhanced db).0
        (Extends-refl db.events);
}

module _ (harvesting_id : ℕ) (db : Db) where
  pub register_creation-Grows :
      (ref : Reference) → Grows db (register_creation harvesting_id ref db).1
  unfolding register_creation
  register_creation-Grows ref =
      Grows-trans (create_reference-Grows ref none db)
        (create_reference_event-Grows _ harvesting_id _ _ _)

  pub register_update-Grows :
      (old_ref : Row) (ref : Reference) (enhanced : Bool)
      → Grows db (register_update harvesting_id old_ref ref enhanced db).1
  unfolding register_update
  register_update-Grows old_ref ref enhanced =
      Grows-trans (create_reference-Grows ref (some (old_ref.version + 1)) db)
        (create_reference_event-Grows _ harvesting_id _ _ _)

  pub register_unchanged-Grows :
      (old_ref : Row) (ref : Reference) (enhanced : Bool)
      → Grows db (register_unchanged harvesting_id old_ref ref enhanced db).1
  unfolding register_unchanged
  register_unchanged-Grows old_ref ref true =
      Grows-trans (create_reference-Grows ref (some (old_ref.version + 1)) db)
        (create_reference_event-Grows _ harvesting_id _ _ _)
  register_unchanged-Grows old_ref ref false =
      create_reference_event-Grows old_ref harvesting_id _ _ db

  pub register_deletion-Grows :
      (old_ref : Row) → Grows db (register_deletion harvesting_id old_ref db).1
  unfolding register_deletion
  register_deletion-Grows old_ref = create_reference_event-Grows old_ref harvesting_id _ _ db
