-- ===== src/Prelude/Sorting.antt =====
-- Python's `sorted` of texts; the sorted list does not depend on the order of the given one.
use Prim.Native.String.{String}
use mathlib.Core.Path.{◌≡◌, refl, sym, ap, ◌∙◌, subst}
use mathlib.Core.Logic.{inl, inr, ∥∥₁_elim}
use mathlib.Core.HLevel.{hedberg}
use mathlib.Core.Bool.{true, false, cond}
use mathlib.Core.List.{List, [], ◌∷◌, Perm, Permᴰ, is_set}
use svp_harvester.Prelude.Equality.{Eq, Bool-cases, string_eq}
use svp_harvester.Prelude.Texts.{leb, leb_total, leb_antisym, leb_trans}

unfoldable pub insert : String → List String → List String
insert x [] = x ∷ []
insert x (y ∷ ys) = let rest = insert x ys in cond (leb x y) (x ∷ y ∷ ys) (y ∷ rest)

-- `sorted(xs)`.
unfoldable pub sorted : List String → List String
unfolding insert
sorted [] = []
sorted (x ∷ xs) = insert x (sorted xs)

insert_comm_lt :
    (x y : String) (l : List String)
    → leb x y ≡ true
    → leb y x ≡ false
    → insert x (insert y l) ≡ insert y (insert x l)
unfolding insert
insert_comm_lt x y [] xy yx = rw (xy, yx) refl
insert_comm_lt x y (z ∷ l) xy yx = elim (Bool-cases (leb y z)) [
  | inl yz ↦ rw (yz, leb_trans x y z xy yz, xy, yx, yz) refl
  | inr yz ↦ elim (Bool-cases (leb x z)) [
    | inl xz ↦ rw (yz, xz, yx, yz) refl
    | inr xz ↦ rw (yz, xz, yz) (ap (λ r. z ∷ r) (insert_comm_lt x y l xy yx))
  ]
]

insert_comm_le :
    (x y : String) (l : List String)
    → leb x y ≡ true
    → insert x (insert y l) ≡ insert y (insert x l)
insert_comm_le x y l xy = elim (Bool-cases (leb y x)) [
  | inl yx ↦ subst (λ z. insert x (insert z l) ≡ insert z (insert x l)) (leb_antisym x y xy yx) refl
  | inr yx ↦ insert_comm_lt x y l xy yx
]

pub insert_comm : (x y : String) (l : List String) → insert x (insert y l) ≡ insert y (insert x l)
insert_comm x y l = elim (leb_total x y) [
  | inl xy ↦ insert_comm_le x y l xy
  | inr yx ↦ sym (insert_comm_le y x l yx)
]

permuted_sorted : {xs ys : List String} → Permᴰ xs ys → sorted xs ≡ sorted ys
unfolding sorted
permuted_sorted Permᴰ.nil = refl
permuted_sorted (Permᴰ.cons e d) = λ i. insert (e i) (permuted_sorted d i)
permuted_sorted (Permᴰ.swap {a} {b} {l = l} e f) =
    insert_comm a b (sorted l) ∙ (λ i. insert (f i) (insert (e i) (sorted l)))
permuted_sorted (Permᴰ.trans d₁ d₂) = permuted_sorted d₁ ∙ permuted_sorted d₂

pub String_set : IsSet String
unfolding string_eq
String_set = hedberg (Eq.dec string_eq)

pub Perm-sorted : (xs ys : List String) → Perm xs ys → sorted xs ≡ sorted ys
Perm-sorted xs ys p = ∥∥₁_elim p (is_set String_set (sorted xs) (sorted ys)) permuted_sorted
