-- ===== src/Harvesting/Recorder/Lookup.antt =====
-- What ReferencesRecorder.exists (app/db/references/references_recorder.py) finds after a registration.
use svp_harvester.Prelude.{ℕ, ◌<◌, Option, none, some, ◌≡◌, refl, arith, string_eq, path→eq}
use svp_harvester.Harvesting.Model.{Reference, Row, Db}
use svp_harvester.Harvesting.Dao.{
  higher_version, last_version, get_last_reference_by_source_identifier,
}
use svp_harvester.Harvesting.Recorder.{create_reference, exists, version_or_default}

higher_version-new :
    (row : Row) (o : Option Row)
    → ((best : Row) → o ≡ some best → best.version < row.version)
    → higher_version row o ≡ row
higher_version-new row none above = refl
higher_version-new row (some best) above = ground (arith, above best refl)

-- A reference that is stored under a version above the stored ones is the one that is found next.
pub exists-create_reference :
    (ref : Reference) (version : Option ℕ) (db : Db)
    → ((best : Row) → exists ref db ≡ some best → best.version < version_or_default version)
    → let r = create_reference ref version db in exists ref r.1 ≡ some r.0
unfolding exists get_last_reference_by_source_identifier create_reference last_version
exists-create_reference ref version db above = ground (
  arith,
  path→eq ref.source_identifier ref.source_identifier refl,
  path→eq ref.harvester ref.harvester refl,
  higher_version-new (create_reference ref version db).0 (exists ref db) above,
)
