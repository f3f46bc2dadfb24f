-- ===== src/Entities.antt =====
-- The entities whose references are harvested, and how a submitted entity is resolved against the
-- stored ones: app/db/models/{entity, identifier}.py, app/db/daos/{entity_dao, identifier_dao}.py
-- and app/services/entities/entity_resolution_service.py. The session flushes before each query, so
-- a query sees the changes of the same session.
pub mod Validation
pub mod Validity
pub mod Nullified
pub mod Types
pub mod Taking
pub mod Resolution
pub mod Updating
pub mod Election
mod Tests
use Prim.Native.Nat.{Ordering}
use Prim.Native.String.{compare}
use svp_harvester.Prelude.{
  ℕ, String, Bool, true, false, not, ◌&&◌, ◌||◌, Option, none, some, List, [], ◌∷◌, ◌++◌, filter,
  map, any, contains, find?, ◌==◌, string_eq, nat_eq, pair_eq, if◌then◌else◌,
}
use svp_harvester.Prelude.Action.{Outcome, ok, raised}
use svp_harvester.Harvesting.Model.{Exception}
use svp_harvester.Harvesting.Converter.{other_error}

-- A type and a value.
abbrev pub Identifier : Type 0
Identifier = String × String

pub record Entity : Type 0 where
  pub id : ℕ
  pub name : Option String
  pub identifiers : List Identifier

-- An entity that is not stored.
pub record NewEntity : Type 0 where
  pub name : Option String
  pub identifiers : List Identifier

-- `Entity.get_identifier`
unfoldable pub get_identifier : String → List Identifier → Option String
get_identifier type [] = none
get_identifier type (i ∷ is) = if i.0 == type then some i.1 else get_identifier type is

-- `Entity.has_identifier_of_type`
unfoldable pub has_identifier_of_type : String → List Identifier → Bool
has_identifier_of_type type identifiers = any (λ i. i.0 == type) identifiers

-- `get_entities_by_identifiers`: a stored identifier whose type is one of the given types and whose
-- value is one of the given values.
unfoldable pub get_entities_by_identifiers : List Identifier → List Entity → List Entity
get_entities_by_identifiers identifiers = filter (λ e.
    any
      (λ i.
        contains (map (λ (j : Identifier). j.0) identifiers) i.0
        && contains (map (λ (j : Identifier). j.1) identifiers) i.1)
      e.identifiers)

-- The key of the sort: the configured keys that are the type of the first identifier, of which the
-- least is taken.
unfoldable pub priority : List String → Entity → Outcome Exception String
priority keys e = elim e.identifiers [
  | [] ↦ raised (other_error "list index out of range")
  | i ∷ is ↦
      if contains keys i.0 then ok i.0 else raised (other_error "min() arg is an empty sequence")
]

abbrev pub precedes : String → String → Bool
precedes s t = elim (compare s t) [ Ordering.gt ↦ false | _ ↦ true ]

-- The first element of a stable sort: the first one with the least key.
abbrev pub least : String × Entity → List (String × Entity) → Entity
least best [] = best.1
least best (x ∷ xs) = least (if precedes best.0 x.0 then best else x) xs

abbrev pub with_priority :
    Outcome Exception String
    → Entity
    → Outcome Exception (List (String × Entity))
    → Outcome Exception (List (String × Entity))
with_priority (raised error) e rest = raised error
with_priority (ok key) e (raised error) = raised error
with_priority (ok key) e (ok rest) = ok ((key, e) ∷ rest)

abbrev pub with_priorities : List String → List Entity → Outcome Exception (List (String × Entity))
with_priorities keys [] = ok []
with_priorities keys (e ∷ es) = with_priority (priority keys e) e (with_priorities keys es)

abbrev pub head_of_sorted :
    Outcome Exception (List (String × Entity)) → Outcome Exception (Option Entity)
head_of_sorted (raised error) = raised error
head_of_sorted (ok []) = ok none
head_of_sorted (ok (x ∷ xs)) = ok (some (least x xs))

-- `sorted(...)[0]`, or nothing if there is no match.
unfoldable pub elect : List String → List Entity → Outcome Exception (Option Entity)
elect keys matching = head_of_sorted (with_priorities keys matching)

-- `_remove_nullified_identifiers`: the list is changed while it is traversed, so the element after a
-- removed one is passed over.
unfoldable pub remove_nullified_identifiers : List String → List Identifier → List Identifier
remove_nullified_identifiers nullify [] = []
remove_nullified_identifiers nullify (i ∷ []) = if contains nullify i.0 then [] else i ∷ []
remove_nullified_identifiers nullify (i ∷ j ∷ is) =
    let kept = i ∷ remove_nullified_identifiers nullify (j ∷ is) in
    let passed_over = j ∷ remove_nullified_identifiers nullify is in
    if contains nullify i.0 then passed_over else kept

-- Another entity gives the identifier away.
abbrev pub give_away : Identifier → List Entity → List Entity
give_away identifier =
    map
      (λ (e : Entity). record e { identifiers = filter (λ i. not (i == identifier)) e.identifiers })

abbrev pub replace_value : String → String → List Identifier → List Identifier
replace_value type value [] = []
replace_value type value (i ∷ is) =
    let rest = replace_value type value is in if i.0 == type then (type, value) ∷ is else i ∷ rest

abbrev pub remove_type : String → List Identifier → List Identifier
remove_type type [] = []
remove_type type (i ∷ is) = let rest = remove_type type is in if i.0 == type then is else i ∷ rest

-- `EntityDAO.take_or_create_identifier`: the elected entity's identifiers and the other entities.
unfoldable pub take_or_create_identifier :
    String → String → List Identifier × List Entity → List Identifier × List Entity
take_or_create_identifier type value (own, others) =
    if contains own (type, value)
    then (own, others)
    else if any (λ e. contains e.identifiers (type, value)) others
    then (remove_type type own ++ (type, value) ∷ [], give_away (type, value) others)
    else if has_identifier_of_type type own
    then (replace_value type value own, others)
    else (own ++ (type, value) ∷ [], others)

-- The loop of `resolve` over the submitted identifiers.
unfoldable pub take_or_create_identifiers :
    List Identifier → List Identifier × List Entity → List Identifier × List Entity
take_or_create_identifiers [] w = w
take_or_create_identifiers (i ∷ is) w =
    take_or_create_identifiers is (take_or_create_identifier i.0 i.1 w)

abbrev pub others_than : Entity → List Entity → List Entity
others_than elected = filter (λ e. not (e.id == elected.id))

-- The elected entity is changed: nullified identifiers, name and submitted identifiers.
unfoldable pub update_entity : NewEntity → List String → Entity → List Entity → Entity × List Entity
update_entity submitted nullify elected entities =
    let w =
      take_or_create_identifiers submitted.identifiers
        (remove_nullified_identifiers nullify elected.identifiers, others_than elected entities) in
    (record elected { name = submitted.name; identifiers = w.0 }, w.1)

-- `EntityResolutionService.resolve`: the elected entity, if any, and the other entities.
unfoldable pub resolve :
    List String
    → NewEntity
    → List String
    → Bool
    → List Entity
    → Outcome Exception (Option Entity × List Entity)
resolve keys submitted nullify identifiers_safe_mode entities =
    elim (elect keys (get_entities_by_identifiers submitted.identifiers entities)) [
      | raised error ↦ raised error
      | ok none ↦ ok (none, entities)
      | ok (some elected) ↦
          let r = update_entity submitted nullify elected entities in
          if identifiers_safe_mode
          then ok (some elected, others_than elected entities)
          else ok (some r.0, r.1)
    ]
