-- ===== src/Prelude/Membership.antt =====
-- Membership in lists and lists without duplicates.
use mathlib.Core.Path.{◌≡◌, refl}
use mathlib.Core.Logic.{inl, inr}
use mathlib.Core.Bool.{Bool, true, false, cond, not, ◌&&◌, ◌||◌}
use mathlib.Core.List.{List, [], ◌∷◌, ◌++◌}
use native.Mathlib.Omega.{arith}
use svp_harvester.Prelude.Equality.{Eq, contains, path→eq, Bool-cases}

module _ {ℓ} {A : Type ℓ} ⦃e : Eq A⦄ where
  -- No element occurs twice.
  abbrev pub NoDup : List A → Type 0
  NoDup [] = Unit
  NoDup (x ∷ xs) = (contains xs x ≡ false) × NoDup xs

  pub contains-append :
      (xs ys : List A) (a : A) → contains (xs ++ ys) a ≡ contains xs a || contains ys a
  contains-append [] ys a = refl
  contains-append (x ∷ xs) ys a = ground (arith, contains-append xs ys a)

  pub contains-last : (xs : List A) (a : A) → contains (xs ++ a ∷ []) a ≡ true
  contains-last xs a = ground (arith, contains-append xs (a ∷ []) a, path→eq a a refl)

  pub NoDup-append : (xs : List A) (a : A) → NoDup xs → contains xs a ≡ false → NoDup (xs ++ a ∷ [])
  NoDup-append [] a h fresh = (refl, tt)
  NoDup-append (x ∷ xs) a h fresh = (
    ground (arith, contains-append xs (a ∷ []) x, h.0, fresh),
    NoDup-append xs a h.1 (ground (arith, fresh)),
  )

  pub NoDup-cond :
      (xs : List A) (a : A) (b : Bool)
      → NoDup xs
      → (b ≡ true → contains xs a ≡ false)
      → NoDup (cond b (xs ++ a ∷ []) xs)
  NoDup-cond xs a true d fresh = NoDup-append xs a d (fresh refl)
  NoDup-cond xs a false d fresh = d

  pub joined-NoDup :
      (xs : List A) (a : A) (b : Bool)
      → contains xs a ≡ b
      → NoDup xs
      → NoDup (cond b xs (xs ++ a ∷ []))
  joined-NoDup xs a true h d = d
  joined-NoDup xs a false h d = NoDup-append xs a d h

pub contains-cond :
    {A : Type 0} ⦃e : Eq A⦄ (xs : List A) (a : A) (nonempty : Bool)
    → nonempty ≡ true
    → contains (cond (nonempty && not (contains xs a)) (xs ++ a ∷ []) xs) a ≡ true
contains-cond xs a nonempty h = elim (Bool-cases (contains xs a)) [
  | inl hit ↦ rw (h, hit) hit
  | inr miss ↦ rw (h, miss) (contains-last xs a)
]

pub contains-longer :
    {A : Type 0} ⦃e : Eq A⦄ (xs : List A) (a v : A) (b : Bool)
    → contains xs v ≡ true
    → contains (cond b (xs ++ a ∷ []) xs) v ≡ true
contains-longer xs a v true h = rw (contains-append xs (a ∷ []) v, h) refl
contains-longer xs a v false h = h
