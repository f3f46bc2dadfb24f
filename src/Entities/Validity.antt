-- ===== src/Entities/Validity.antt =====
-- Which requests for a person the checks of app/models/people.py let pass.
use svp_harvester.Prelude.{
  String, Bool, true, false, not, ◌&&◌, ◌||◌, Option, some, none, List, [], ◌∷◌, ◌≡◌, refl, ◌∙◌, ap,
  ◌==◌, string_eq, contains, any, all, arith, Bool-cases, inl, inr,
}
use svp_harvester.Prelude.Action.{Outcome, ok, raised}
use svp_harvester.Entities.Validation.{
  Item, hash, other, Identifiers, absent, null, given, PersonError, assertion_error, is_truthy,
  is_complete_item, all_complete, has_type, assert, check_minimal_information, is_referenced,
  collected, invalid_identifiers, report_invalid, reported,
  check_identifiers_referenced_in_settings, PersonData,
}

abbrev pub is_ok : Outcome PersonError (Unit {0}) → Bool
is_ok (ok done) = true
is_ok (raised error) = false

-- A hash with a configured type and a value, both not empty.
abbrev pub is_valid_item : List String → Item → Bool
is_valid_item keys (hash (some type) (some value)) =
    not (type == "") && not (value == "") && contains keys type
is_valid_item keys (hash (some type) none) = false
is_valid_item keys (hash none value) = false
is_valid_item keys other = false

-- Valid items only, and at least one of them or a name.
abbrev pub is_valid_person : List String → Option String → Identifiers → Bool
is_valid_person keys name absent = is_truthy name
is_valid_person keys name null = false
is_valid_person keys name (given []) = is_truthy name
is_valid_person keys name (given (item ∷ items)) =
    is_valid_item keys item && all (is_valid_item keys) items

abbrev is_referenced_item : List String → Item → Bool
is_referenced_item keys (hash type value) = is_referenced keys type
is_referenced_item keys other = false

report_invalid-fails :
    (t : Option String) (types : List (Option String)) → is_ok (report_invalid (t ∷ types)) ≡ false
unfolding report_invalid
report_invalid-fails none types = refl
report_invalid-fails (some t) [] = refl
report_invalid-fails (some t) (u ∷ types) = report_invalid-fails u types

reported-collected :
    (valid : Bool) (type : Option String) (o : Outcome PersonError (List (Option String)))
    → is_ok (reported (collected valid type o)) ≡ valid && is_ok (reported o)
reported-collected true type (raised error) = refl
reported-collected false type (raised error) = refl
reported-collected true type (ok types) = refl
reported-collected false type (ok types) = report_invalid-fails type types

reported-referenced :
    (keys : List String) (items : List Item)
    → is_ok (reported (invalid_identifiers keys items)) ≡ all (is_referenced_item keys) items
unfolding invalid_identifiers report_invalid
reported-referenced keys [] = refl
reported-referenced keys (other ∷ items) = refl
reported-referenced keys (hash type value ∷ items) =
    reported-collected (is_referenced keys type) type (invalid_identifiers keys items)
    ∙ ap (λ b. is_referenced keys type && b) (reported-referenced keys items)

item_valid :
    (keys : List String) (item : Item)
    → is_complete_item item && is_referenced_item keys item ≡ is_valid_item keys item
item_valid keys (hash (some type) (some value)) = ground arith
item_valid keys (hash (some type) none) = ground arith
item_valid keys (hash none value) = refl
item_valid keys other = refl

items_valid :
    (keys : List String) (items : List Item)
    → all_complete items && all (is_referenced_item keys) items ≡ all (is_valid_item keys) items
unfolding all_complete
items_valid keys [] = refl
items_valid keys (item ∷ items) = ground (arith, item_valid keys item, items_valid keys items)

-- The type of the first item is found among the keys.
referenced_found :
    (keys : List String) (type : String) (value : Option String) (items : List Item)
    → contains keys type ≡ true
    → any (λ key. any (has_type key) (hash (some type) value ∷ items)) keys ≡ true
referenced_found (k ∷ keys) type value items h = elim (Bool-cases (type == k)) [
  | inl same ↦ rw (same) refl
  | inr differ ↦ ground (arith, referenced_found keys type value items (ground arith))
]
referenced_found [] type value items h = h

nothing_found : (keys : List String) → any (λ key. any (has_type key) []) keys ≡ false
nothing_found [] = refl
nothing_found (k ∷ keys) = nothing_found keys

check_minimal-given :
    (keys : List String) (name : Option String) (items : List Item)
    → is_ok (check_minimal_information keys (record { name = name; identifiers = given items }))
      ≡ all_complete items && (any (λ key. any (has_type key) items) keys || is_truthy name)
unfolding check_minimal_information
check_minimal-given keys name items =
    go (all_complete items) (any (λ key. any (has_type key) items) keys || is_truthy name)
  where
    go :
        (c b : Bool)
        → is_ok (elim c as (λ _. Outcome PersonError (Unit {0})) [
          | false ↦ raised assertion_error
          | true ↦ assert b
        ])
          ≡ c && b
    go true true = refl
    go true false = refl
    go false b = refl

assert_ok : (b : Bool) → is_ok (assert b) ≡ b
assert_ok true = refl
assert_ok false = refl

found_of_referenced :
    (keys : List String) (item : Item) (items : List Item)
    → all (is_referenced_item keys) (item ∷ items) ≡ true
    → any (λ key. any (has_type key) (item ∷ items)) keys ≡ true
found_of_referenced keys (hash (some type) value) items h =
    referenced_found keys type value items (ground arith)
found_of_referenced keys (hash none value) items h = ground arith
found_of_referenced keys other items h = ground arith

passes_both :
    (complete found named referenced : Bool)
    → (referenced ≡ true → found ≡ true)
    → (complete && (found || named)) && referenced ≡ complete && referenced
passes_both complete found named false h = ground arith
passes_both complete found named true h = rw (h refl) (ground arith)

named_only :
    (keys : List String) (name : Option String)
    → is_ok (assert (any (λ key. any (has_type key) []) keys || is_truthy name)) && true
      ≡ is_truthy name
named_only keys name = rw (nothing_found keys, assert_ok (is_truthy name)) (ground arith)

pub checks-is_valid_person :
    (keys : List String) (name : Option String) (identifiers : Identifiers)
    → let data_of : PersonData = record { name = name; identifiers = identifiers } in
      is_ok (check_minimal_information keys data_of)
        && is_ok (check_identifiers_referenced_in_settings keys data_of)
      ≡ is_valid_person keys name identifiers
unfolding check_minimal_information check_identifiers_referenced_in_settings
checks-is_valid_person keys name absent = named_only keys name
checks-is_valid_person keys name null = ground arith
checks-is_valid_person keys name (given []) = named_only keys name
checks-is_valid_person keys name (given (item ∷ items)) =
    (λ i.
      check_minimal-given keys name (item ∷ items) i && reported-referenced keys (item ∷ items) i)
    ∙ passes_both (all_complete (item ∷ items))
        (any (λ key. any (has_type key) (item ∷ items)) keys) (is_truthy name)
        (all (is_referenced_item keys) (item ∷ items)) (found_of_referenced keys item items)
    ∙ items_valid keys (item ∷ items)
