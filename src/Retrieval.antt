-- ===== src/Retrieval.antt =====
-- `RetrievalService` of app/services/retrieval/retrieval_service.py: the registration of a retrieval
-- and the start of its harvesters. The tasks that it starts are the runs of the harvesters.
pub mod Selection
pub mod Launch
pub mod Registration
mod Tests
use svp_harvester.Prelude.{
  ℕ, String, Bool, true, false, not, ◌&&◌, ◌||◌, Option, none, some, List, [], ◌∷◌, ◌++◌, any,
  contains, ◌==◌, string_eq, if◌then◌else◌,
}
use svp_harvester.Prelude.Action.{Outcome, ok, raised}
use svp_harvester.Harvesting.Model.{EventType, running, Exception, Harvesting, Retrieval, Db}
use svp_harvester.Harvesting.Dao.{create_harvesting, create_retrieval}
use svp_harvester.Harvesting.Converter.{other_error}
use svp_harvester.Harvesting.World.{is_relevant}
use svp_harvester.Entities.{Identifier, get_identifier}

-- A harvester as its factory makes it: the identifier types that its source supports.
pub record Source : Type 0 where
  pub supported_identifier_types : List String

-- `_check_entity_declaration_and_nullification`: an empty or absent list nullifies nothing.
unfoldable pub check_entity_declaration_and_nullification :
    List Identifier → List String → Outcome Exception (Unit {0})
check_entity_declaration_and_nullification identifiers nullify =
    if any (λ i. contains nullify i.0) identifiers
    then raised (other_error "cannot be declared and nullified at same time")
    else ok tt

-- `name not in self.harvesters_list`, where `None` selects every harvester.
abbrev pub is_selected : Option (List String) → String → Bool
is_selected none name = true
is_selected (some harvesters_list) name = contains harvesters_list name

-- `self.harvesters |= {name: harvester}`
abbrev pub put {ℓ} : {A : Type ℓ} → String → A → List (String × A) → List (String × A)
put name harvester [] = (name, harvester) ∷ []
put name harvester (entry ∷ entries) =
    let rest = put name harvester entries in
    if entry.0 == name then (name, harvester) ∷ entries else entry ∷ rest

-- The loop of `_build_harvesters` over the configured harvesters.
unfoldable pub build_harvesters :
    Option (List String) → List (String × Source) → List (String × Source) → List (String × Source)
build_harvesters harvesters_list [] harvesters = harvesters
build_harvesters harvesters_list (config ∷ configs) harvesters =
    build_harvesters harvesters_list configs (
      if is_selected harvesters_list config.0 then put config.0 config.1 harvesters else harvesters)

-- What a harvester is given before its task starts.
pub record Launched : Type 0 where
  pub harvester : String
  pub harvesting_id : ℕ
  pub entity_id : ℕ
  pub event_types : List EventType
  pub fetch_enhancements : Bool

-- The loop of `_launch_harvesters`: the harvesters whose tasks are created, in order.
unfoldable pub launch_harvesters :
    Retrieval → Bool → List Identifier → List (String × Source) → Db → List Launched × Db
launch_harvesters retrieval fetch_enhancements identifiers [] db = ([], db)
launch_harvesters retrieval fetch_enhancements identifiers (harvester ∷ harvesters) db =
    let relevant =
      is_relevant (harvester.1).supported_identifier_types
        (λ type. get_identifier type identifiers) in
    let created = create_harvesting retrieval harvester.0 running db in
    let rest =
      launch_harvesters retrieval fetch_enhancements identifiers harvesters
        (if relevant then created.1 else db) in
    let launched : Launched = record {
      harvester = harvester.0;
      harvesting_id = (created.0).id;
      entity_id = retrieval.entity_id;
      event_types = retrieval.event_types;
      fetch_enhancements = fetch_enhancements;
    } in
    (if relevant then launched ∷ rest.0 else rest.0, rest.1)
