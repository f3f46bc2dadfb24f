-- ===== src/Harvesting/Recorder.antt =====
-- `ReferencesRecorder` of app/db/references/references_recorder.py, for the harvesting whose id and
-- harvester it holds. The merge of the related objects of a reference is part of its `Content`.
pub mod Consistency
pub mod Registering
pub mod History
pub mod Lookup
use svp_harvester.Prelude.{ℕ, ◌+◌, Bool, true, false, Option, none, some, List, ◌∷◌, if◌then◌else◌}
use svp_harvester.Harvesting.Model.{
  EventType, created, updated, deleted, unchanged, Reference, Row, ReferenceEvent, Harvesting, Db,
}
use svp_harvester.Harvesting.Dao.{
  create_reference_event, get_last_reference_by_source_identifier,
  get_previous_references_for_entity_and_harvester,
}

-- A version that is not set takes the column's default, 0.
abbrev pub version_or_default : Option ℕ → ℕ
version_or_default none = 0
version_or_default (some version) = version

unfoldable pub create_reference : Reference → Option ℕ → Db → Row × Db
create_reference new_ref version db =
    let row : Row = record {
      id = db.next_reference;
      version = version_or_default version;
      reference = new_ref;
    } in
    (row, record db { references = row ∷ db.references; next_reference = db.next_reference + 1 })

unfoldable pub register_creation : ℕ → Reference → Db → ReferenceEvent × Db
register_creation harvesting_id new_ref db =
    let (row, stored) = create_reference new_ref none db in
    create_reference_event row harvesting_id created false stored

unfoldable pub register_update : ℕ → Row → Reference → Bool → Db → ReferenceEvent × Db
register_update harvesting_id old_ref new_ref enhanced db =
    let (row, stored) = create_reference new_ref (some (old_ref.version + 1)) db in
    create_reference_event row harvesting_id updated enhanced stored

-- `new_ref` is `None` for a reference that is not enhanced, and is not read then.
unfoldable pub register_unchanged : ℕ → Row → Reference → Bool → Db → ReferenceEvent × Db
register_unchanged harvesting_id old_ref new_ref enhanced db =
    let (row, stored) = create_reference new_ref (some (old_ref.version + 1)) db in
    if enhanced
    then create_reference_event row harvesting_id unchanged enhanced stored
    else create_reference_event old_ref harvesting_id unchanged enhanced db

unfoldable pub register_deletion : ℕ → Row → Db → ReferenceEvent × Db
register_deletion harvesting_id old_ref db =
    create_reference_event old_ref harvesting_id deleted false db

unfoldable pub exists : Reference → Db → Option Row
exists new_ref db =
    get_last_reference_by_source_identifier db new_ref.source_identifier new_ref.harvester

unfoldable pub get_matching_references_before_harvesting : Harvesting → ℕ → Db → List Row
get_matching_references_before_harvesting harvesting entity_id db =
    get_previous_references_for_entity_and_harvester db entity_id harvesting.harvester harvesting.id
