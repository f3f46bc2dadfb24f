-- ===== src/Amqp/Processing.antt =====
-- `_process_message` of app/amqp/amqp_message_processor.py, with the check of a person's identifiers
-- of app/models/people.py. The validation of the fields, the registration and the run of a retrieval
-- are a record of functions.
use svp_harvester.Prelude.{
  ℕ, String, Bool, true, false, not, Option, none, some, List, [], ◌∷◌, ◌++◌, any, contains, ◌==◌,
  string_eq, if◌then◌else◌,
}
use svp_harvester.Prelude.Action.{
  Outcome, ok, raised, Action, pure, raise, lift, modify, ◌>>=◌, ◌>>◌,
}
use svp_harvester.Harvesting.Model.{EventType}
use svp_harvester.Entities.{Identifier}
use svp_harvester.Amqp.Worker.{Failure, invalid_entity, unexpected}

-- What is published, apart from results: an error with its message, or the id of a retrieval.
pub data Publication : Type 0 where
  retrieval_error : String → Publication
  retrieval : ℕ → Publication

-- A message, `none` where a key is missing that has no default here.
pub record Request (Fields : Type 0) : Type 0 where
  pub type : Option String
  pub reply : Bool
  pub fields : Fields
  pub identifiers_safe_mode : Bool
  pub nullify : List String
  pub harvesters : Option (List String)
  pub events : List EventType

-- The arguments of `RetrievalService(...)`.
pub record Arguments : Type 0 where
  pub identifiers_safe_mode : Bool
  pub nullify : List String
  pub harvesters : Option (List String)
  pub events : List EventType

pub record Services (Fields : Type 0) : Type 0 where
  pub validate : Fields → Outcome String (List Identifier)
  pub register : Arguments → List Identifier → Outcome Failure ℕ
  pub run : ℕ → Outcome Failure (Unit {0})

abbrev pub bibliographic_identifiers : List String
bibliographic_identifiers = "idref" ∷ "id_hal_i" ∷ "id_hal_s" ∷ "orcid" ∷ "scopus_eid" ∷ []

-- `has_no_bibliographic_identifiers`
unfoldable pub has_no_bibliographic_identifiers : List Identifier → Bool
has_no_bibliographic_identifiers identifiers =
    not (any (λ i. contains bibliographic_identifiers i.0) identifiers)

-- `json_payload.get("harvesters", [])`
abbrev pub harvesters_or_empty : Option (List String) → List String
harvesters_or_empty none = []
harvesters_or_empty (some harvesters) = harvesters

abbrev pub Publish : Type 0
Publish = Action (List Publication) Failure (Unit {0})

unfoldable pub publish : Publication → Publish
publish publication = modify (λ published. published ++ publication ∷ [])

module _ {Fields : Type 0} (services : Services Fields) where
  abbrev pub arguments : Request Fields → Arguments
  arguments request = record {
    identifiers_safe_mode = request.identifiers_safe_mode;
    nullify = request.nullify;
    harvesters = some (harvesters_or_empty request.harvesters);
    events = request.events;
  }

  abbrev pub reject : String → Publish
  reject message = publish (retrieval_error message) >> raise invalid_entity

  -- With a reply, the run is a task whose exceptions are not raised.
  abbrev pub announce_and_run : Bool → ℕ → Publish
  announce_and_run true id = publish (retrieval id)
  announce_and_run false id = lift (services.run id)

  unfoldable pub retrieve : Request Fields → List Identifier → Publish
  retrieve request identifiers =
      if has_no_bibliographic_identifiers identifiers
      then reject "No identifiers provided, retrieval aborted"
      else (lift (services.register (arguments request) identifiers)
          >>= announce_and_run request.reply)

  abbrev pub retrieve_if_valid : Request Fields → Outcome String (List Identifier) → Publish
  retrieve_if_valid request (raised message) = reject message
  retrieve_if_valid request (ok identifiers) = retrieve request identifiers

  unfoldable pub process_message : Request Fields → Publish
  process_message request = elim request.type [
    | none ↦ raise unexpected
    | some type ↦
        if type == "person"
        then retrieve_if_valid request (services.validate request.fields)
        else pure tt
  ]
