-- ===== src/Harvesting/Recorder/Registering.antt =====
-- Each operation of app/db/references/references_recorder.py that registers a reference keeps the tables
-- consistent.
use svp_harvester.Prelude.{
  ℕ, ◌+◌, Bool, true, false, Option, none, some, All, ◌≡◌, sym, arith, string_eq, nat_eq,
}
use svp_harvester.Harvesting.Dao.{get_last_reference_by_source_identifier}
use svp_harvester.Harvesting.Recorder.{
  create_reference, register_creation, register_update, register_unchanged, exists,
}
use svp_harvester.Harvesting.Model.{event_type_eq, Reference, Row, Db}
use svp_harvester.Harvesting.Recorder.Consistency.{
  IsIn, IsConsistent, Below, last_version-Below, last_version-found, create_reference-IsConsistent,
  create_reference_event-IsConsistent,
}

abbrev pub IsLast : Option Row → Reference → Db → Type 0
IsLast old_ref ref db = old_ref ≡ exists ref db

module _ (ref : Reference) (db : Db) where
  no-version-Below :
      (v : ℕ)
      → none ≡ exists ref db
      → All (Below v ref.source_identifier ref.harvester) db.references
  unfolding exists get_last_reference_by_source_identifier
  no-version-Below v e =
      last_version-Below ref.source_identifier ref.harvester db.references v (λ best p. cc)

  next-version-Below :
      (old_ref : Row)
      → some old_ref ≡ exists ref db
      → All (Below (old_ref.version + 1) ref.source_identifier ref.harvester) db.references
  unfolding exists get_last_reference_by_source_identifier
  next-version-Below old_ref e =
      last_version-Below ref.source_identifier ref.harvester db.references (old_ref.version + 1)
        (λ best p. ground (arith, p, e))

  old_ref-IsIn : (old_ref : Row) → some old_ref ≡ exists ref db → IsIn db.references old_ref.id
  unfolding exists get_last_reference_by_source_identifier
  old_ref-IsIn old_ref e =
      (last_version-found ref.source_identifier ref.harvester db.references old_ref (sym e)).0

  created-IsIn :
      (version : Option ℕ) → let r = create_reference ref version db in IsIn r.1.references r.0.id
  unfolding create_reference
  created-IsIn version = ground arith

-- Each registration keeps the invariant, an update or an enhancement for the last stored version.
module _ (harvesting_id : ℕ) (ref : Reference) (db : Db) (c : IsConsistent db) where
  pub register_creation-IsConsistent :
      IsLast none ref db → IsConsistent (register_creation harvesting_id ref db).1
  unfolding register_creation
  register_creation-IsConsistent last =
      create_reference_event-IsConsistent _ harvesting_id _ _ _
        (create_reference-IsConsistent ref none db c (no-version-Below ref db 0 last))
        (created-IsIn ref db none)

  pub register_update-IsConsistent :
      (old_ref : Row) (enhanced : Bool)
      → IsLast (some old_ref) ref db
      → IsConsistent (register_update harvesting_id old_ref ref enhanced db).1
  unfolding register_update
  register_update-IsConsistent old_ref enhanced last =
      create_reference_event-IsConsistent _ harvesting_id _ _ _
        (create_reference-IsConsistent ref (some (old_ref.version + 1)) db c
          (next-version-Below ref db old_ref last))
        (created-IsIn ref db (some (old_ref.version + 1)))

  pub register_unchanged-IsConsistent :
      (old_ref : Row) (enhanced : Bool)
      → IsLast (some old_ref) ref db
      → IsConsistent (register_unchanged harvesting_id old_ref ref enhanced db).1
  unfolding register_unchanged
  register_unchanged-IsConsistent old_ref true last =
      create_reference_event-IsConsistent _ harvesting_id _ _ _
        (create_reference-IsConsistent ref (some (old_ref.version + 1)) db c
          (next-version-Below ref db old_ref last))
        (created-IsIn ref db (some (old_ref.version + 1)))
  register_unchanged-IsConsistent old_ref false last =
      create_reference_event-IsConsistent old_ref harvesting_id _ _ db c
        (old_ref-IsIn ref db old_ref last)
