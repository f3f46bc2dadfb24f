-- ===== src/Entities/Validation.antt =====
-- The checks of a request for a person before it is parsed: app/models/people.py.
use svp_harvester.Prelude.{
  String, Bool, true, false, cond, not, ◌&&◌, ◌||◌, Option, some, none, List, [], ◌∷◌, ◌==◌,
  string_eq, contains, any,
}
use svp_harvester.Prelude.Action.{Outcome, ok, raised}

-- An element of the list of identifiers: a hash, whose texts may be missing or null, or another value.
pub data Item : Type 0 where
  hash : Option String → Option String → Item
  other : Item

pub data Identifiers : Type 0 where
  absent : Identifiers
  null : Identifiers
  given : List Item → Identifiers

pub record PersonData : Type 0 where
  pub name : Option String
  pub identifiers : Identifiers

-- A failed assertion becomes an error of the request, the others do not.
pub data PersonError : Type 0 where
  assertion_error : PersonError
  type_error : PersonError
  attribute_error : PersonError

-- A text as a condition.
abbrev pub is_truthy : Option String → Bool
is_truthy none = false
is_truthy (some text) = not (text == "")

-- `data.get("identifiers", []) or []`
abbrev pub items_of : Identifiers → List Item
items_of absent = []
items_of null = []
items_of (given items) = items

abbrev pub is_complete_item : Item → Bool
is_complete_item (hash type value) = is_truthy type && is_truthy value
is_complete_item other = false

unfoldable pub all_complete : List Item → Bool
all_complete [] = true
all_complete (item ∷ items) = is_complete_item item && all_complete items

abbrev pub has_type : String → Item → Bool
has_type key (hash (some type) value) = type == key
has_type key (hash none value) = false
has_type key other = false

abbrev pub assert : Bool → Outcome PersonError (Unit {0})
assert true = ok tt
assert false = raised assertion_error

-- `_check_minimal_information`
unfoldable pub check_minimal_information : List String → PersonData → Outcome PersonError (Unit {0})
unfolding all_complete
check_minimal_information keys data_of =
    let items = items_of data_of.identifiers in
    let has_valid_identifier = any (λ key. any (has_type key) items) keys in
    elim (all_complete items) [
      | false ↦ raised assertion_error
      | true ↦ assert (has_valid_identifier || is_truthy data_of.name)
    ]

abbrev pub is_referenced : List String → Option String → Bool
is_referenced keys none = false
is_referenced keys (some type) = contains keys type

abbrev pub collected :
    Bool
    → Option String
    → Outcome PersonError (List (Option String))
    → Outcome PersonError (List (Option String))
collected valid type (raised error) = raised error
collected valid type (ok types) = ok (cond valid types (type ∷ types))

-- The types that are not configured, where none is a type that is missing; fails on a value that is
-- no hash.
unfoldable pub invalid_identifiers :
    List String → List Item → Outcome PersonError (List (Option String))
invalid_identifiers keys [] = ok []
invalid_identifiers keys (other ∷ items) = raised attribute_error
invalid_identifiers keys (hash type value ∷ items) =
    collected (is_referenced keys type) type (invalid_identifiers keys items)

-- The message joins the invalid types, which fails if a type is missing.
unfoldable pub report_invalid : List (Option String) → Outcome PersonError (Unit {0})
report_invalid [] = ok tt
report_invalid (none ∷ types) = raised type_error
report_invalid (some t ∷ []) = raised assertion_error
report_invalid (some t ∷ u ∷ types) = report_invalid (u ∷ types)

abbrev pub reported : Outcome PersonError (List (Option String)) → Outcome PersonError (Unit {0})
reported (raised error) = raised error
reported (ok types) = report_invalid types

-- `_check_identifiers_referenced_in_settings`
unfoldable pub check_identifiers_referenced_in_settings :
    List String → PersonData → Outcome PersonError (Unit {0})
unfolding invalid_identifiers report_invalid
check_identifiers_referenced_in_settings keys data_of = elim (data_of.identifiers) [
  | absent ↦ ok tt
  | null ↦ raised type_error
  | given items ↦ reported (invalid_identifiers keys items)
]
