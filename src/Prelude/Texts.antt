-- ===== src/Prelude/Texts.antt =====
-- Python's order on texts, by the numbers of the characters, is a total order.
use Prim.Native.Nat.{ℕ, ◌<◌, compare as compare_nat, Ordering}
use Prim.Native.Char.{Char, code}
use Prim.Native.String.{String, [], ◌∷◌, compare, then}
use Prim.Native.String.compare
use mathlib.Core.Path.{◌≡◌, refl, sym, ap, ◌∙◌}
use mathlib.Core.Logic.{◌⊎◌, inl, inr}
use mathlib.Core.Bool.{Bool, true, false, false≢true}
use native.Mathlib.Omega.{arith, compare-lt, compare-eq, compare-gt}
use text.Mathlib.TextEquality.{Char-path}

-- `s <= t` for an answer of the comparison.
abbrev is_le : Ordering → Bool
is_le Ordering.lt = true
is_le Ordering.eq = true
is_le Ordering.gt = false

unfoldable pub leb : String → String → Bool
leb s t = is_le (compare s t)

number_cases : (m n : ℕ) → (m < n) ⊎ ((m ≡ n) ⊎ (n < m))
number_cases m n = go (compare_nat m n) refl
  where
    go : (o : Ordering) → compare_nat m n ≡ o → (m < n) ⊎ ((m ≡ n) ⊎ (n < m))
    go Ordering.lt h = inl (compare-lt m n h)
    go Ordering.eq h = inr (inl (compare-eq m n h))
    go Ordering.gt h = inr (inr (compare-gt m n h))

leb-cons :
    (c d : Char) (s t : String)
    → leb (c ∷ s) (d ∷ t) ≡ is_le (then (compare_nat (code c) (code d)) (compare s t))
unfolding leb
leb-cons c d s t = ap is_le (compare.cons-cons c d s t)

-- The first characters decide, or they are the same and the rests decide.
cons-leb :
    (c d : Char) (s t : String)
    → leb (c ∷ s) (d ∷ t) ≡ true
    → (code c < code d) ⊎ ((code c ≡ code d) × (leb s t ≡ true))
unfolding leb
cons-leb c d s t h = go (compare_nat (code c) (code d)) refl (sym (leb-cons c d s t) ∙ h)
  where
    go :
        (o : Ordering)
        → compare_nat (code c) (code d) ≡ o
        → is_le (then o (compare s t)) ≡ true
        → (code c < code d) ⊎ ((code c ≡ code d) × (leb s t ≡ true))
    go Ordering.lt e k = inl (compare-lt (code c) (code d) e)
    go Ordering.eq e k = inr (compare-eq (code c) (code d) e, k)
    go Ordering.gt e k = absurd (false≢true k)

leb_of_lt : (c d : Char) (s t : String) → code c < code d → leb (c ∷ s) (d ∷ t) ≡ true
leb_of_lt c d s t h = leb-cons c d s t ∙ go (compare_nat (code c) (code d)) refl
  where
    go : (o : Ordering) → compare_nat (code c) (code d) ≡ o → is_le (then o (compare s t)) ≡ true
    go Ordering.lt e = refl
    go Ordering.eq e = let same = compare-eq (code c) (code d) e in absurd (omega arith)
    go Ordering.gt e = let more = compare-gt (code c) (code d) e in absurd (omega arith)

leb_of_eq :
    (c d : Char) (s t : String) → code c ≡ code d → leb s t ≡ true → leb (c ∷ s) (d ∷ t) ≡ true
unfolding leb
leb_of_eq c d s t h k = leb-cons c d s t ∙ go (compare_nat (code c) (code d)) refl
  where
    go : (o : Ordering) → compare_nat (code c) (code d) ≡ o → is_le (then o (compare s t)) ≡ true
    go Ordering.lt e = refl
    go Ordering.eq e = k
    go Ordering.gt e = let more = compare-gt (code c) (code d) e in absurd (omega arith)

leb-nil : (s : String) → leb [] s ≡ true
unfolding leb
leb-nil [] = ap is_le compare.nil-nil
leb-nil (d ∷ t) = ap is_le (compare.nil-cons d t)

not-leb-nil : (c : Char) (s : String) → leb (c ∷ s) [] ≡ false
unfolding leb
not-leb-nil c s = ap is_le (compare.cons-nil c s)

pub leb_total : (s t : String) → (leb s t ≡ true) ⊎ (leb t s ≡ true)
leb_total [] t = inl (leb-nil t)
leb_total (c ∷ s) [] = inr (leb-nil (c ∷ s))
leb_total (c ∷ s) (d ∷ t) = elim (number_cases (code c) (code d)) [
  | inl less ↦ inl (leb_of_lt c d s t less)
  | inr (inl same) ↦ elim (leb_total s t) [
    | inl h ↦ inl (leb_of_eq c d s t same h)
    | inr h ↦ inr (leb_of_eq d c t s (sym same) h)
  ]
  | inr (inr more) ↦ inr (leb_of_lt d c t s more)
]

pub leb_antisym : (s t : String) → leb s t ≡ true → leb t s ≡ true → s ≡ t
leb_antisym [] [] h k = refl
leb_antisym [] (d ∷ t) h k = absurd (false≢true (sym (not-leb-nil d t) ∙ k))
leb_antisym (c ∷ s) [] h k = absurd (false≢true (sym (not-leb-nil c s) ∙ h))
leb_antisym (c ∷ s) (d ∷ t) h k = elim (cons-leb c d s t h) [
  | inl less ↦ elim (cons-leb d c t s k) [
    | inl more ↦ absurd (omega arith)
    | inr (same, q) ↦ absurd (omega arith)
  ]
  | inr (same, p) ↦ elim (cons-leb d c t s k) [
    | inl more ↦ absurd (omega arith)
    | inr (back, q) ↦ λ i. Char-path c d same i ∷ leb_antisym s t p q i
  ]
]

pub leb_trans : (s t u : String) → leb s t ≡ true → leb t u ≡ true → leb s u ≡ true
leb_trans [] t u h k = leb-nil u
leb_trans (c ∷ s) [] u h k = absurd (false≢true (sym (not-leb-nil c s) ∙ h))
leb_trans (c ∷ s) (d ∷ t) [] h k = absurd (false≢true (sym (not-leb-nil d t) ∙ k))
leb_trans (c ∷ s) (d ∷ t) (e ∷ u) h k = elim (cons-leb c d s t h) [
  | inl less ↦ elim (cons-leb d e t u k) [
    | inl more ↦ leb_of_lt c e s u (omega arith)
    | inr (same, q) ↦ leb_of_lt c e s u (omega arith)
  ]
  | inr (same, p) ↦ elim (cons-leb d e t u k) [
    | inl more ↦ leb_of_lt c e s u (omega arith)
    | inr (next, q) ↦ leb_of_eq c e s u (omega arith) (leb_trans s t u p q)
  ]
]
