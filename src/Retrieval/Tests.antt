-- ===== src/Retrieval/Tests.antt =====
-- Sample retrievals: app/services/retrieval/retrieval_service.py at concrete inputs.
use svp_harvester.Harvesting.Model.{created}
use svp_harvester.Entities.{NewEntity, Identifier}
use svp_harvester.Retrieval.Registration.{
  Tables, RetrievalOptions, IsRegistered, register, register-IsRegistered,
}
use svp_harvester.Prelude.{String, true, ◌&&◌, some, List, [], ◌∷◌, ◌≡◌, filter}
use svp_harvester.Harvesting.Sample.{retrieval, db}
use svp_harvester.Retrieval.{Source, is_selected, build_harvesters, launch_harvesters, false}
use svp_harvester.Retrieval.Selection.{has_harvester, build_harvesters-IsSelected}
use svp_harvester.Retrieval.Launch.{
  relevant, expected_harvestings, expected_launches, launch_harvesters-relevant,
}

abbrev hal : String × Source
hal = ("hal", record { supported_identifier_types = "id_hal_i" ∷ [] })

abbrev idref : String × Source
idref = ("idref", record { supported_identifier_types = "idref" ∷ [] })

build_harvesters-IsSelected_example :
    (has_harvester "hal" (build_harvesters (some ("hal" ∷ [])) (hal ∷ idref ∷ []) [])
      ≡ (is_selected (some ("hal" ∷ [])) "hal" && has_harvester "hal" (hal ∷ idref ∷ [])))
    × (build_harvesters (some []) (hal ∷ idref ∷ []) [] ≡ [])
build_harvesters-IsSelected_example =
    build_harvesters-IsSelected (some ("hal" ∷ [])) (hal ∷ idref ∷ []) "hal"

abbrev identifiers : List Identifier
identifiers = ("idref", "1") ∷ []

launch_harvesters-relevant_example :
    let r = launch_harvesters retrieval true identifiers (hal ∷ idref ∷ []) db in
    let started = filter (relevant identifiers) (hal ∷ idref ∷ []) in
    (r.0 ≡ expected_launches retrieval true 2 started)
    × (r.1.harvestings ≡ expected_harvestings retrieval 2 started db.harvestings)
    × (r.1.references ≡ [])
    × (r.1.events ≡ [])
launch_harvesters-relevant_example =
    launch_harvesters-relevant retrieval true identifiers (hal ∷ idref ∷ []) db

abbrev submitted : NewEntity
submitted = record { name = some "Ada"; identifiers = identifiers }

abbrev options : RetrievalOptions
options = record { identifiers_safe_mode = false; nullify = []; events = created ∷ [] }

abbrev tables : Tables
tables = record { entities = []; next_entity = 8; db = db }

register-IsRegistered_example :
    IsRegistered options tables (register ("idref" ∷ []) submitted options tables)
register-IsRegistered_example = register-IsRegistered ("idref" ∷ []) submitted options tables
