-- ===== src/Prelude/Lists.antt =====
-- Lists over the native numbers, predicates on lists by recursion, and `all`, `any`, `filter`.
use Prim.Native.Nat.{ℕ, suc, ◌+◌}
use mathlib.Core.Path.{◌≡◌, refl, ap, sym}
use mathlib.Core.Bool.{Bool, true, false, cond, ◌&&◌, ◌||◌}
use mathlib.Core.Option.{Option, none, some}
use mathlib.Core.List.{List, [], ◌∷◌, ◌++◌, append_assoc}
use native.Mathlib.Omega.{arith}

module _ {ℓ} {A : Type ℓ} where
  abbrev pub length : List A → ℕ
  length [] = 0
  length (x ∷ xs) = suc (length xs)

  pub length-append : (xs ys : List A) → length (xs ++ ys) ≡ length xs + length ys
  length-append [] ys = omega arith
  length-append (x ∷ xs) ys = omega (arith, length-append xs ys)

  -- `[x for x in xs if p(x)]`
  abbrev pub filter : (A → Bool) → List A → List A
  filter p [] = []
  filter p (x ∷ xs) = let rest = filter p xs in cond (p x) (x ∷ rest) rest

  abbrev pub any : (A → Bool) → List A → Bool
  any p [] = false
  any p (x ∷ xs) = p x || any p xs

  abbrev pub all : (A → Bool) → List A → Bool
  all p [] = true
  all p (x ∷ xs) = p x && all p xs

  -- `next((x for x in xs if p(x)), None)`
  abbrev pub find? : (A → Bool) → List A → Option A
  find? p [] = none
  find? p (x ∷ xs) = cond (p x) (some x) (find? p xs)

  abbrev pub All {κ} : (A → Type κ) → List A → Type κ
  All P [] = Unit
  All P (x ∷ xs) = P x × All P xs

  pub All-append {κ} : (P : A → Type κ) (xs ys : List A) → All P xs → All P ys → All P (xs ++ ys)
  All-append P [] ys hx hy = hy
  All-append P (x ∷ xs) ys hx hy = (hx.0, All-append P xs ys hx.1 hy)

  pub All-map {κ μ} :
      (P : A → Type κ) (Q : A → Type μ)
      → ((x : A) → P x → Q x)
      → (xs : List A) → All P xs
      → All Q xs
  All-map P Q f [] h = tt
  All-map P Q f (x ∷ xs) h = (f x h.0, All-map P Q f xs h.1)

  -- The list grew at its front only.
  pub record Extends (old new : List A) : Type ℓ where
    pub added : List A
    pub grown : new ≡ added ++ old

  pub Extends-refl : (xs : List A) → Extends xs xs
  Extends-refl xs = record { added = []; grown = refl }

  pub Extends-cons : (x : A) {old new : List A} → Extends old new → Extends old (x ∷ new)
  Extends-cons x e = record { added = x ∷ e.added; grown = ap (λ l. x ∷ l) e.grown }

  pub Extends-trans : {a b c : List A} → Extends a b → Extends b c → Extends a c
  Extends-trans {a} e f = record {
    added = f.added ++ e.added;
    grown = rw (f.grown, e.grown) (sym (append_assoc f.added e.added a));
  }

  pub any-append : (p : A → Bool) (xs ys : List A) → any p ys ≡ true → any p (xs ++ ys) ≡ true
  any-append p [] ys h = h
  any-append p (x ∷ xs) ys h = ground (arith, any-append p xs ys h)

  pub any-append_right : (p : A → Bool) (xs ys : List A) → any p ys ≡ true → any p (xs ++ ys) ≡ true
  any-append_right p [] ys h = h
  any-append_right p (x ∷ xs) ys h = ground (arith, any-append_right p xs ys h)

  pub any-Extends :
      (p : A → Bool) {old new : List A} → Extends old new → any p old ≡ true → any p new ≡ true
  any-Extends p {old} e h = rw e.grown (any-append p e.added old h)

  pub All-filter {κ} :
      (P : A → Type κ) (p : A → Bool) (xs : List A) → All P xs → All P (filter p xs)
  All-filter P p [] h = tt
  All-filter P p (x ∷ xs) h = keep (p x) (All-filter P p xs h.1)
    where
      keep : (b : Bool) → All P (filter p xs) → All P (cond b (x ∷ filter p xs) (filter p xs))
      keep true rest = (h.0, rest)
      keep false rest = rest

  pub filter-append :
      (p : A → Bool) (xs ys : List A) → filter p (xs ++ ys) ≡ filter p xs ++ filter p ys
  filter-append p [] ys = refl
  filter-append p (x ∷ xs) ys = ground (arith, filter-append p xs ys)

  pub filter-nil : (p : A → Bool) (rows : List A) → any p rows ≡ false → filter p rows ≡ []
  filter-nil p [] h = refl
  filter-nil p (x ∷ xs) h = ground (arith, filter-nil p xs)
