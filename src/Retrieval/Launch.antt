-- ===== src/Retrieval/Launch.antt =====
-- The harvestings that a retrieval starts: `_launch_harvesters` of
-- app/services/retrieval/retrieval_service.py.
use svp_harvester.Prelude.{
  ℕ, String, Bool, List, [], ◌∷◌, filter, ◌+◌, ◌≡◌, refl, ap, Bool-cases, inl, inr,
}
use svp_harvester.Harvesting.Model.{running, Harvesting, Retrieval, Db}
use svp_harvester.Harvesting.Dao.{create_harvesting}
use svp_harvester.Harvesting.World.{is_relevant}
use svp_harvester.Entities.{Identifier, get_identifier}
use svp_harvester.Retrieval.{Source, Launched, launch_harvesters}

abbrev pub relevant : List Identifier → String × Source → Bool
relevant identifiers harvester =
    is_relevant (harvester.1).supported_identifier_types (λ type. get_identifier type identifiers)

-- The harvestings of a retrieval that are created from an id on, the newest first.
abbrev pub expected_harvestings :
    Retrieval → ℕ → List (String × Source) → List Harvesting → List Harvesting
expected_harvestings retrieval id [] harvestings = harvestings
expected_harvestings retrieval id (h ∷ hs) harvestings =
    expected_harvestings retrieval (id + 1) hs (
      record { id = id; harvester = h.0; retrieval_id = retrieval.id; state = running }
      ∷ harvestings)

abbrev pub expected_launches : Retrieval → Bool → ℕ → List (String × Source) → List Launched
expected_launches retrieval fetch_enhancements id [] = []
expected_launches retrieval fetch_enhancements id (h ∷ hs) =
    record {
      harvester = h.0;
      harvesting_id = id;
      entity_id = retrieval.entity_id;
      event_types = retrieval.event_types;
      fetch_enhancements = fetch_enhancements;
    }
    ∷ expected_launches retrieval fetch_enhancements (id + 1) hs

-- For a retrieval, the identifiers of its entity and the built harvesters: exactly the relevant
-- harvesters are started, in their order, each with a harvesting of its own that is stored as
-- running for this retrieval, with consecutive ids, and with the entity and the event types of the
-- retrieval. The stored references and events stay as they are.
pub launch_harvesters-relevant :
    (retrieval : Retrieval) (fetch_enhancements : Bool) (identifiers : List Identifier)
    (harvesters : List (String × Source)) (db : Db)
    → let r = launch_harvesters retrieval fetch_enhancements identifiers harvesters db in
      let started = filter (relevant identifiers) harvesters in
      (r.0 ≡ expected_launches retrieval fetch_enhancements db.next_harvesting started)
      × (r.1.harvestings ≡ expected_harvestings retrieval db.next_harvesting started db.harvestings)
      × (r.1.references ≡ db.references)
      × (r.1.events ≡ db.events)
unfolding launch_harvesters create_harvesting
launch_harvesters-relevant retrieval fetch_enhancements identifiers [] db = (refl, refl, refl, refl)
launch_harvesters-relevant retrieval fetch_enhancements identifiers (h ∷ hs) db =
    elim (Bool-cases (relevant identifiers h)) [
      | inl chosen ↦
          let ih =
            launch_harvesters-relevant retrieval fetch_enhancements identifiers hs
              (create_harvesting retrieval h.0 running db).1 in
          let launched : Launched = record {
            harvester = h.0;
            harvesting_id = db.next_harvesting;
            entity_id = retrieval.entity_id;
            event_types = retrieval.event_types;
            fetch_enhancements = fetch_enhancements;
          } in
          rw chosen (ap (λ ls. launched ∷ ls) ih.0, ih.1, ih.2, ih.3)
      | inr skipped ↦
          let ih = launch_harvesters-relevant retrieval fetch_enhancements identifiers hs db in
          rw skipped ih
    ]
