-- ===== src/Harvesting/Recorder/Consistency.antt =====
-- The invariant of the tables that ReferencesRecorder (app/db/references/references_recorder.py)
-- writes, and what keeps it.
use svp_harvester.Prelude.{
  ℕ, ◌<◌, ◌≤◌, String, Bool, true, false, Option, none, some, List, [], ◌∷◌, any, All, All-map,
  Bool-cases, ◌≡◌, inl, inr, arith, ◌==◌, string_eq, nat_eq, find?, refl, not, ◌&&◌, filter,
  if◌then◌else◌,
}
use svp_harvester.Harvesting.Dao.{
  add_row, rows_of_events, last_completed_harvesting,
  get_previous_references_for_entity_and_harvester, has_key, higher_version, last_version,
  create_reference_event,
}
use svp_harvester.Harvesting.Recorder.{
  get_matching_references_before_harvesting, version_or_default, create_reference,
  register_deletion,
}
use svp_harvester.Harvesting.Model.{
  deleted, event_type_eq, Harvesting, EventType, Reference, Row, Db, ReferenceEvent,
}

abbrev pub IsIn : List Row → ℕ → Type 0
IsIn rows id = any (λ r. r.id == id) rows ≡ true

-- `older` has the smaller id, and the smaller version if both are of one reference.
abbrev pub Precedes : Row → Row → Type 0
Precedes newer older =
    (older.id < newer.id)
    × (has_key newer.source_identifier newer.harvester older ≡ true → older.version < newer.version)

-- The newest row comes first.
abbrev pub Ordered : List Row → Type 0
Ordered [] = Unit
Ordered (row ∷ rows) = All (Precedes row) rows × Ordered rows

-- Ids are below their sequences, later rows of a reference have higher versions, and every event
-- is about a row of the table.
pub record IsConsistent (db : Db) : Type 0 where
  pub reference_ids : All (λ r. r.id < db.next_reference) db.references
  pub ordered : Ordered db.references
  pub event_ids : All (λ e. e.id < db.next_event) db.events
  pub event_rows : All (λ e. IsIn db.references e.reference_id) db.events

abbrev pub Below : ℕ → String → String → Row → Type 0
Below version source_identifier harvester r =
    has_key source_identifier harvester r ≡ true → r.version < version

pub higher_version-bounds :
    (row : Row) (o : Option Row)
    → (row.version ≤ (higher_version row o).version)
      × ((best : Row) → o ≡ some best → best.version ≤ (higher_version row o).version)
higher_version-bounds row none = (omega arith, λ best e. cc)
higher_version-bounds row (some b) = (ground arith, λ best e. ground arith)

-- A version above that of the last version is above every version of the key.
pub last_version-Below :
    (s h : String) (rows : List Row) (v : ℕ)
    → ((best : Row) → last_version s h rows ≡ some best → best.version < v)
    → All (Below v s h) rows
unfolding last_version
last_version-Below s h [] v above = tt
last_version-Below s h (row ∷ rows) v above = (
  λ key. omega (
    arith,
    (higher_version-bounds row (last_version s h rows)).0,
    above (higher_version row (last_version s h rows)) (rw key),
  ),
  last_version-Below s h rows v λ best e. elim (Bool-cases (has_key s h row)) [
    | inl key ↦ omega (
      arith,
      (higher_version-bounds row (last_version s h rows)).1 best e,
      above (higher_version row (last_version s h rows)) (rw key),
    )
    | inr other ↦ above best (rw other e)
  ],
)

-- The last version of a key is a row of the table and has the key.
pub last_version-found :
    (s h : String) (rows : List Row) (best : Row)
    → last_version s h rows ≡ some best
    → IsIn rows best.id × (has_key s h best ≡ true)
unfolding last_version
last_version-found s h [] best e = cc
last_version-found s h (row ∷ rows) best e = elim (Bool-cases (has_key s h row)) [
  | inl key ↦ ground (arith, key, last_version-found s h rows best)
  | inr other ↦ ground (arith, other, last_version-found s h rows best)
]

pub IsIn-cons : (row : Row) (rows : List Row) (id : ℕ) → IsIn rows id → IsIn (row ∷ rows) id
IsIn-cons row rows id h = ground arith

pub Precedes-new :
    (row : Row) (rows : List Row)
    → All (λ r. r.id < row.id) rows
    → All (Below row.version row.source_identifier row.harvester) rows
    → All (Precedes row) rows
Precedes-new row [] ids versions = tt
Precedes-new row (r ∷ rows) ids versions =
    ((ids.0, versions.0), Precedes-new row rows ids.1 versions.1)

pub create_reference-IsConsistent :
    (ref : Reference) (version : Option ℕ) (db : Db)
    → IsConsistent db
    → All (Below (version_or_default version) ref.source_identifier ref.harvester) db.references
    → IsConsistent (create_reference ref version db).1
unfolding create_reference
create_reference-IsConsistent ref version db c above = record {
  reference_ids =
      (omega arith, All-map _ _ (λ r h. omega (arith, h)) db.references c.reference_ids);
  ordered = (
    Precedes-new (create_reference ref version db).0 db.references c.reference_ids above,
    c.ordered,
  );
  event_ids = c.event_ids;
  event_rows =
      All-map _ _
        (λ e h. IsIn-cons (create_reference ref version db).0 db.references e.reference_id h)
        db.events c.event_rows;
}

pub create_reference_event-IsConsistent :
    (row : Row) (harvesting_id : ℕ) (type : EventType) (enhanced : Bool) (db : Db)
    → IsConsistent db
    → IsIn db.references row.id
    → IsConsistent (create_reference_event row harvesting_id type enhanced db).1
unfolding create_reference_event
create_reference_event-IsConsistent row harvesting_id type enhanced db c found = record {
  reference_ids = c.reference_ids;
  ordered = c.ordered;
  event_ids = (omega arith, All-map _ _ (λ e h. omega (arith, h)) db.events c.event_ids);
  event_rows = (found, c.event_rows);
}

pub register_deletion-IsConsistent :
    (harvesting_id : ℕ) (db : Db)
    → IsConsistent db
    → (old_ref : Row) → IsIn db.references old_ref.id
    → IsConsistent (register_deletion harvesting_id old_ref db).1
unfolding register_deletion
register_deletion-IsConsistent harvesting_id db c old_ref found =
    create_reference_event-IsConsistent old_ref harvesting_id _ _ db c found

find?-IsIn :
    (p : Row → Bool) (table : List Row) (row : Row) → find? p table ≡ some row → IsIn table row.id
find?-IsIn p [] row e = cc
find?-IsIn p (r ∷ table) row e = elim (Bool-cases (p r)) [
  | inl hit ↦ ground (arith, hit, find?-IsIn p table row)
  | inr miss ↦ ground (arith, miss, find?-IsIn p table row)
]

pub add_row-IsIn :
    (table : List Row) (e : ReferenceEvent) (rows : List Row)
    → All (λ r. IsIn table r.id) rows
    → All (λ r. IsIn table r.id) (add_row table e rows)
add_row-IsIn table e rows h = go (find? (λ r. r.id == e.reference_id) table) refl
  where
    add :
        (b : Bool) (row : Row)
        → IsIn table row.id
        → All (λ r. IsIn table r.id) (if b then rows else row ∷ rows)
    add true row found = h
    add false row found = (found, h)

    go :
        (o : Option Row)
        → find? (λ r. r.id == e.reference_id) table ≡ o
        → All
            (λ r. IsIn table r.id)
            (elim o as (λ _. List Row) [
              | none ↦ rows
              | some row ↦ if any (λ r. r.id == row.id) rows then rows else row ∷ rows
            ])
    go none p = h
    go (some row) p = add (any (λ r. r.id == row.id) rows) row (find?-IsIn _ table row p)

pub rows_of_events-IsIn :
    (table : List Row) (events : List ReferenceEvent)
    → All (λ r. IsIn table r.id) (rows_of_events table events)
unfolding rows_of_events
rows_of_events-IsIn table [] = tt
rows_of_events-IsIn table (e ∷ events) =
    add_row-IsIn table e (rows_of_events table events) (rows_of_events-IsIn table events)

-- The references of the last completed harvesting are rows of the table.
pub previous_references-IsIn :
    (harvesting : Harvesting) (entity_id : ℕ) (db : Db)
    → All
        (λ r. IsIn db.references r.id)
        (get_matching_references_before_harvesting harvesting entity_id db)
unfolding get_matching_references_before_harvesting get_previous_references_for_entity_and_harvester
previous_references-IsIn harvesting entity_id db =
    go (last_completed_harvesting db entity_id harvesting.harvester harvesting.id)
  where
    go :
        (o : Option ℕ)
        → All
            (λ r. IsIn db.references r.id)
            (elim o as (λ _. List Row) [
              | none ↦ []
              | some last ↦
                  rows_of_events db.references
                    (filter (λ e. (e.harvesting_id == last) && not (e.type == deleted)) db.events)
            ])
    go none = tt
    go (some last) = rows_of_events-IsIn db.references _
