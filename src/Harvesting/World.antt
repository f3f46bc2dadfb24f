-- ===== src/Harvesting/World.antt =====
-- What a run of app/harvesters/abstract_harvester.py reads and writes: the database, the result queue
-- and the objects of the run.
use Prim.Native.Nat.{Ordering}
use Prim.Native.String.{compare}
use svp_harvester.Prelude.{
  ℕ, String, Bool, true, false, Option, none, some, List, [], ◌∷◌, ◌++◌, string_eq, ◌||◌,
}
use svp_harvester.Prelude.Action.{Outcome, ok, raised, Action, modify}
use svp_harvester.Harvesting.Model.{
  EventType, created, updated, deleted, State, event_type_eq, Exception, Row, Harvesting, Db,
}
use svp_harvester.Harvesting.Converter.{other_error}

-- What the harvester puts in the result queue.
pub data Message : Type 0 where
  harvesting_state : ℕ → State → Message
  harvesting_failed : ℕ → State → String → Message
  reference_event : ℕ → EventType → Message

-- What an element of `fetch_results` is: a raw result, `None` or `"end"`.
pub data Fetched (Raw : Type 0) : Type 0 where
  result : Raw → Fetched Raw
  stop : Fetched Raw

-- The elements in order, and the exception that the generator ends with, if any.
pub record Fetch (Raw : Type 0) : Type 0 where
  pub items : List (Fetched Raw)
  pub failure : Option Exception

-- The attributes of a harvester that do not change while it runs.
pub record Harvester (Version : Type 0) : Type 0 where
  pub harvesting_id : ℕ
  pub entity_id : ℕ
  pub event_types : List EventType
  pub fetch_enhancements : Bool
  pub version : Option Version

-- The tables, the result queue (its oldest message first), the attribute `harvesting`, and the
-- list `existing_references` of `run`.
pub record World : Type 0 where
  pub db : Db
  pub queue : Option (List Message)
  pub harvesting : Option Harvesting
  pub existing : List Row

abbrev pub Step : Type 0 → Type 0
Step A = Action World Exception A

abbrev pub on_db : {A : Type 0} → (Db → A × Db) → Step A
on_db f w = let r = f w.db in (ok r.0, record w { db = r.1 })

abbrev pub default_event_types : List EventType
default_event_types = created ∷ updated ∷ deleted ∷ []

abbrev pub event_types_or_default : List EventType → List EventType
event_types_or_default [] = default_event_types
event_types_or_default (event ∷ events) = event ∷ events

-- `>` on texts compares code points.
abbrev pub text_gtb : String → String → Bool
text_gtb s t = elim (compare s t) [ Ordering.gt ↦ true | _ ↦ false ]

abbrev pub enqueue : Message → Option (List Message) → Option (List Message)
enqueue message none = none
enqueue message (some messages) = some (messages ++ message ∷ [])

unfoldable pub put_in_queue : Message → Step Unit
put_in_queue message = modify (λ w. record w { queue = enqueue message w.queue })

abbrev pub state_of : Option Harvesting → Outcome Exception State
state_of none = raised (other_error "'NoneType' object has no attribute 'state'")
state_of (some harvesting) = ok harvesting.state

abbrev pub present : Option Harvesting → Outcome Exception Harvesting
present none = raised (other_error "'NoneType' object has no attribute 'id'")
present (some harvesting) = ok harvesting

abbrev pub version_or_error {ℓ} : {Version : Type ℓ} → Option Version → Outcome Exception Version
version_or_error none = raised (other_error "Harvester must have a VERSION attribute")
version_or_error (some version) = ok version

-- `is_relevant`: the entity has an identifier of a type that the source supports.
unfoldable pub is_relevant : List String → (String → Option String) → Bool
is_relevant [] get_identifier = false
is_relevant (type ∷ types) get_identifier =
    elim (get_identifier type) [ none ↦ false | some value ↦ true ]
    || is_relevant types get_identifier
