-- ===== src/Harvesting/Dao.antt =====
-- The queries and statements of app/db/daos/{reference_dao, reference_event_dao, harvesting_dao,
-- harvesting_error_dao}.py that a harvesting uses, as functions on the tables. Each runs in a
-- transaction of its own, which is taken to commit.
use svp_harvester.Prelude.{
  ℕ, ◌+◌, max, String, Bool, not, ◌&&◌, Option, none, some, List, [], ◌∷◌, filter, any, find?, ◌==◌,
  ltb, if◌then◌else◌, string_eq, nat_eq,
}
use svp_harvester.Harvesting.Model.{
  EventType, deleted, State, completed, event_type_eq, state_eq, Exception, Row, ReferenceEvent,
  Retrieval, Harvesting, Db,
}

-- The retrieval of a harvesting belongs to the entity: `join(Retrieval).where(entity_id == …)`.
unfoldable pub is_for_entity : Db → ℕ → Harvesting → Bool
is_for_entity db entity_id h =
    any (λ r. (r.id == h.retrieval_id) && (r.entity_id == entity_id)) db.retrievals

abbrev pub is_previous : Db → ℕ → String → ℕ → Harvesting → Bool
is_previous db entity_id harvester harvesting_id h =
    is_for_entity db entity_id h
    && (h.harvester == harvester)
    && not (h.id == harvesting_id)
    && (h.state == completed)

-- `select(func.max(Harvesting.id))` over the rows that pass the test.
unfoldable pub max_id : (Harvesting → Bool) → List Harvesting → Option ℕ
max_id p [] = none
max_id p (h ∷ hs) =
    let rest = max_id p hs in
    if p h then some (elim rest [ none ↦ h.id | some m ↦ max m h.id ]) else rest

unfoldable pub last_completed_harvesting : Db → ℕ → String → ℕ → Option ℕ
last_completed_harvesting db entity_id harvester harvesting_id =
    max_id (is_previous db entity_id harvester harvesting_id) db.harvestings

-- The reference row of an event, and `unique()` over the rows. The query has no order.
abbrev pub add_row : List Row → ReferenceEvent → List Row → List Row
add_row table e rows = elim (find? (λ r. r.id == e.reference_id) table) [
  | none ↦ rows
  | some row ↦ if any (λ r. r.id == row.id) rows then rows else row ∷ rows
]

unfoldable pub rows_of_events : List Row → List ReferenceEvent → List Row
rows_of_events table [] = []
rows_of_events table (e ∷ es) = add_row table e (rows_of_events table es)

unfoldable pub get_previous_references_for_entity_and_harvester : Db → ℕ → String → ℕ → List Row
unfolding last_completed_harvesting rows_of_events
get_previous_references_for_entity_and_harvester db entity_id harvester harvesting_id =
    elim (last_completed_harvesting db entity_id harvester harvesting_id) [
      | none ↦ []
      | some last ↦
          rows_of_events db.references
            (filter (λ e. (e.harvesting_id == last) && not (e.type == deleted)) db.events)
    ]

abbrev pub has_key : String → String → Row → Bool
has_key source_identifier harvester row =
    (row.source_identifier == source_identifier) && (row.harvester == harvester)

abbrev pub higher_version : Row → Option Row → Row
higher_version row none = row
higher_version row (some best) = if ltb row.version best.version then best else row

-- `order_by(Reference.version.desc())` and `first()`
unfoldable pub last_version : String → String → List Row → Option Row
last_version source_identifier harvester [] = none
last_version source_identifier harvester (row ∷ rows) =
    let rest = last_version source_identifier harvester rows in
    if has_key source_identifier harvester row then some (higher_version row rest) else rest

unfoldable pub get_last_reference_by_source_identifier : Db → String → String → Option Row
get_last_reference_by_source_identifier db source_identifier harvester =
    last_version source_identifier harvester db.references

unfoldable pub create_reference_event : Row → ℕ → EventType → Bool → Db → ReferenceEvent × Db
create_reference_event row harvesting_id event_type enhanced db =
    let event : ReferenceEvent = record {
      id = db.next_event;
      type = event_type;
      enhanced = enhanced;
      reference_id = row.id;
      harvesting_id = harvesting_id;
    } in
    (event, record db { events = event ∷ db.events; next_event = db.next_event + 1 })

unfoldable pub create_harvesting : Retrieval → String → State → Db → Harvesting × Db
create_harvesting retrieval harvester state db =
    let harvesting : Harvesting = record {
      id = db.next_harvesting;
      harvester = harvester;
      retrieval_id = retrieval.id;
      state = state;
    } in
    (
      harvesting,
      record db {
        harvestings = harvesting ∷ db.harvestings;
        next_harvesting = db.next_harvesting + 1;
      },
    )

unfoldable pub get_harvesting_by_id : Db → ℕ → Option Harvesting
get_harvesting_by_id db harvesting_id = find? (λ h. h.id == harvesting_id) db.harvestings

unfoldable pub set_state : ℕ → State → List Harvesting → List Harvesting
set_state harvesting_id state [] = []
set_state harvesting_id state (h ∷ hs) =
    (if h.id == harvesting_id then record h { state = state } else h)
    ∷ set_state harvesting_id state hs

unfoldable pub update_harvesting_state : ℕ → State → Db → Db
update_harvesting_state harvesting_id state db = record db {
  harvestings = set_state harvesting_id state db.harvestings;
}

unfoldable pub add_harvesting_error : ℕ → Exception → Db → Db
add_harvesting_error harvesting_id error db = record db {
  errors =
      record { harvesting_id = harvesting_id; name = error.kind; message = error.message }
      ∷ db.errors;
}

unfoldable pub create_retrieval : ℕ → List EventType → Db → Retrieval × Db
create_retrieval entity_id event_types db =
    let retrieval : Retrieval = record {
      id = db.next_retrieval;
      entity_id = entity_id;
      event_types = event_types;
    } in
    (
      retrieval,
      record db { retrievals = retrieval ∷ db.retrievals; next_retrieval = db.next_retrieval + 1 },
    )
