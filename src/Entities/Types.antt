-- ===== src/Entities/Types.antt =====
-- Identifiers by their types: what app/db/daos/entity_dao.py does to the identifiers of one entity.
use svp_harvester.Prelude.{
  String, Bool, true, false, not, ◌||◌, List, [], ◌∷◌, ◌++◌, filter, any, contains, ◌==◌, string_eq,
  pair_eq, ◌≡◌, refl, sym, ap, ◌∙◌, arith, eq→path, path→eq, Bool-cases, inl, inr, ◌⊎◌, cond, subst,
  eq_sym, false≢true, or_left, or_right,
}
use svp_harvester.Entities.{Identifier, replace_value, remove_type}

abbrev pub has_type : String → List Identifier → Bool
has_type type is = any (λ (i : Identifier). i.0 == type) is

-- At most one identifier of each type, which `_validate_no_more_than_one_identifier_of_same_type`
-- demands.
abbrev pub IsDistinct : List Identifier → Type 0
IsDistinct [] = Unit
IsDistinct (i ∷ is) = (any (λ (j : Identifier). j.0 == i.0) is ≡ false) × IsDistinct is

pub remove_type-has_type :
    (type other : String) (is : List Identifier)
    → has_type other is ≡ false
    → has_type other (remove_type type is) ≡ false
remove_type-has_type type other [] h = h
remove_type-has_type type other (i ∷ is) h = ground (arith, h, remove_type-has_type type other is)

pub remove_type-gone :
    (type : String) (is : List Identifier)
    → IsDistinct is
    → has_type type (remove_type type is) ≡ false
remove_type-gone type [] d = refl
remove_type-gone type (i ∷ is) d = go (Bool-cases (i.0 == type)) (remove_type-gone type is d.1)
  where
    go :
        ((i.0 == type) ≡ true) ⊎ ((i.0 == type) ≡ false)
        → has_type type (remove_type type is) ≡ false
        → has_type type (cond (i.0 == type) is (i ∷ remove_type type is)) ≡ false
    go (inl same) ih = rw same (subst (λ t. has_type t is ≡ false) (eq→path i.0 type same) d.0)
    go (inr differ) ih = rw differ (rw (differ, ih) refl)

pub remove_type-IsDistinct :
    (type : String) (is : List Identifier) → IsDistinct is → IsDistinct (remove_type type is)
remove_type-IsDistinct type [] d = d
remove_type-IsDistinct type (i ∷ is) d = go (i.0 == type) (remove_type-IsDistinct type is d.1)
  where
    go :
        (same : Bool)
        → IsDistinct (remove_type type is)
        → IsDistinct (cond same is (i ∷ remove_type type is))
    go true ih = d.1
    go false ih = (remove_type-has_type type i.0 is d.0, ih)

pub has_type-append :
    (type : String) (is : List Identifier) (i : Identifier)
    → has_type type (is ++ i ∷ []) ≡ has_type type is || i.0 == type
has_type-append type [] i = ground arith
has_type-append type (j ∷ is) i = ground (arith, has_type-append type is i)

pub given_away :
    (identifier : Identifier) (is : List Identifier)
    → contains (filter (λ i. not (i == identifier)) is) identifier ≡ false
given_away identifier [] = refl
given_away identifier (i ∷ is) = go (Bool-cases (i == identifier)) (given_away identifier is)
  where
    go :
        ((i == identifier) ≡ true) ⊎ ((i == identifier) ≡ false)
        → contains (filter (λ j. not (j == identifier)) is) identifier ≡ false
        → contains
            (cond
              (not (i == identifier))
              (i ∷ filter (λ j. not (j == identifier)) is)
              (filter (λ j. not (j == identifier)) is))
            identifier
          ≡ false
    go (inl same) ih = rw same ih
    go (inr differ) ih = rw differ (rw (eq_sym identifier i, differ, ih) refl)

-- An identifier of another type is not the one at the head.
pub other_type :
    (i j : Identifier) (type : String)
    → (i.0 == type) ≡ false
    → (j.0 == type) ≡ true
    → (i == j) ≡ false
other_type i j type differ same = elim (Bool-cases (i == j)) [
  | inr h ↦ h
  | inl h ↦
      absurd (false≢true (sym differ ∙ ap (λ (x : Identifier). x.0 == type) (eq→path i j h) ∙ same))
]

pub remove_type-kept :
    (type : String) (is : List Identifier) (i : Identifier)
    → (i.0 == type) ≡ false
    → contains (remove_type type is) i ≡ contains is i
remove_type-kept type [] i h = refl
remove_type-kept type (j ∷ is) i h = go (Bool-cases (j.0 == type)) (remove_type-kept type is i h)
  where
    go :
        ((j.0 == type) ≡ true) ⊎ ((j.0 == type) ≡ false)
        → contains (remove_type type is) i ≡ contains is i
        → contains (cond (j.0 == type) is (j ∷ remove_type type is)) i ≡ (i == j || contains is i)
    go (inl same) ih = rw (same, other_type i j type h same) refl
    go (inr differ) ih = rw (differ, ih) refl

pub replace_value-has_type :
    (type value other : String) (is : List Identifier)
    → has_type other (replace_value type value is) ≡ has_type other is
replace_value-has_type type value other [] = refl
replace_value-has_type type value other (i ∷ is) =
    go (Bool-cases (i.0 == type)) (replace_value-has_type type value other is)
  where
    go :
        ((i.0 == type) ≡ true) ⊎ ((i.0 == type) ≡ false)
        → has_type other (replace_value type value is) ≡ has_type other is
        → has_type other (cond (i.0 == type) ((type, value) ∷ is) (i ∷ replace_value type value is))
          ≡ (i.0 == other || has_type other is)
    go (inl same) ih =
        rw same (ap (λ t. t == other || has_type other is) (sym (eq→path i.0 type same)))
    go (inr differ) ih = rw (differ, ih) refl

pub replace_value-IsDistinct :
    (type value : String) (is : List Identifier)
    → IsDistinct is
    → IsDistinct (replace_value type value is)
replace_value-IsDistinct type value [] d = d
replace_value-IsDistinct type value (i ∷ is) d =
    go (Bool-cases (i.0 == type)) (replace_value-IsDistinct type value is d.1)
  where
    go :
        ((i.0 == type) ≡ true) ⊎ ((i.0 == type) ≡ false)
        → IsDistinct (replace_value type value is)
        → IsDistinct (cond (i.0 == type) ((type, value) ∷ is) (i ∷ replace_value type value is))
    go (inl same) ih = rw same (subst (λ t. has_type t is ≡ false) (eq→path i.0 type same) d.0, d.1)
    go (inr differ) ih = rw differ (replace_value-has_type type value i.0 is ∙ d.0, ih)

pub replace_value-contains :
    (type value : String) (is : List Identifier)
    → has_type type is ≡ true
    → contains (replace_value type value is) (type, value) ≡ true
replace_value-contains type value [] h = absurd (false≢true h)
replace_value-contains type value (i ∷ is) h =
    go (Bool-cases (i.0 == type)) (replace_value-contains type value is)
  where
    go :
        ((i.0 == type) ≡ true) ⊎ ((i.0 == type) ≡ false)
        → (has_type type is ≡ true → contains (replace_value type value is) (type, value) ≡ true)
        → contains
            (cond (i.0 == type) ((type, value) ∷ is) (i ∷ replace_value type value is))
            (type, value)
          ≡ true
    go (inl same) ih =
        rw same (or_left _ (path→eq {A = Identifier} (type, value) (type, value) refl))
    go (inr differ) ih = rw differ (or_right ((type, value) == i) (ih (ground (arith, h, differ))))

pub replace_value-kept :
    (type value : String) (is : List Identifier) (i : Identifier)
    → (i.0 == type) ≡ false
    → contains (replace_value type value is) i ≡ contains is i
replace_value-kept type value [] i h = refl
replace_value-kept type value (j ∷ is) i h =
    go (Bool-cases (j.0 == type)) (replace_value-kept type value is i h)
  where
    go :
        ((j.0 == type) ≡ true) ⊎ ((j.0 == type) ≡ false)
        → contains (replace_value type value is) i ≡ contains is i
        → contains (cond (j.0 == type) ((type, value) ∷ is) (j ∷ replace_value type value is)) i
          ≡ (i == j || contains is i)
    go (inl same) ih =
        rw
          (
            same,
            other_type i j type h same,
            other_type i (type, value) type h (path→eq type type refl),
          )
          refl
    go (inr differ) ih = rw (differ, ih) refl

pub append-IsDistinct :
    (is : List Identifier) (i : Identifier)
    → IsDistinct is
    → has_type i.0 is ≡ false
    → IsDistinct (is ++ i ∷ [])
append-IsDistinct [] i d h = (refl, tt)
append-IsDistinct (j ∷ is) i d h = (
  ground (arith, has_type-append j.0 is i, d.0, h, eq_sym i.0 j.0),
  append-IsDistinct is i d.1 (ground (arith, h)),
)
