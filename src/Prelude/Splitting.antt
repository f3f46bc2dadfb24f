-- ===== src/Prelude/Splitting.antt =====
-- `str.split` with a separator, and what it makes of parts that are joined by the separator.
use Prim.Native.Char.{Char, code}
use Prim.Native.String.{String, ◌++◌}
use Prim.Native.Nat.{ℕ, zero, suc, ◌+◌, ◌≤◌}
use mathlib.Core.Path.{subst, ◌≡◌, refl, sym, ap, ◌∙◌}
use mathlib.Core.Logic.{inl, inr}
use mathlib.Core.Bool.{not, Bool, true, false, ◌&&◌, false≢true}
use mathlib.Core.Option.{Option, none, some}
use mathlib.Core.List.{List, [], ◌∷◌}
use native.Mathlib.Omega.{arith}
use text.Mathlib.TextLemmas.{nil-append, cons-append, append_assoc}
use svp_harvester.Prelude.Equality.{◌==◌, nat_eq, path→eq, and_left, and_right, Bool-cases}

-- `str.startswith`
abbrev pub begins : String → String → Bool
begins String.[] text = true
begins (String.◌∷◌ c separator) String.[] = false
begins (String.◌∷◌ c separator) (String.◌∷◌ d text) = (code c == code d) && begins separator text

abbrev pub text_length : String → ℕ
text_length String.[] = 0
text_length (String.◌∷◌ c text) = suc (text_length text)

-- How many characters of a separator come after its first.
abbrev rest_length : String → ℕ
rest_length String.[] = 0
rest_length (String.◌∷◌ c separator) = text_length separator

-- The part of a text up to the next separator, and the parts after it. The first number counts the
-- characters that still belong to a separator.
abbrev pub split_from : String → ℕ → String → String × List String
split_from separator skipped String.[] = (String.[], [])
split_from separator (suc skipped) (String.◌∷◌ c text) = split_from separator skipped text
split_from separator zero (String.◌∷◌ c text) = elim (begins separator (String.◌∷◌ c text)) [
  | true ↦
      let found = split_from separator (rest_length separator) text in
      (String.[], found.0 ∷ found.1)
  | false ↦ let found = split_from separator zero text in (String.◌∷◌ c found.0, found.1)
]

-- `str.split`
unfoldable pub split : String → String → List String
split separator text = let found = split_from separator zero text in found.0 ∷ found.1

abbrev pub drop : ℕ → String → String
drop zero text = text
drop (suc n) String.[] = String.[]
drop (suc n) (String.◌∷◌ c text) = drop n text

abbrev before_and_after : Char → Option (String × String) → Option (String × String)
before_and_after c none = none
before_and_after c (some parts) = some (String.◌∷◌ c parts.0, parts.1)

-- What comes before and after the first occurrence of a separator that is not empty.
abbrev pub cut : String → String → Option (String × String)
cut separator String.[] = none
cut separator (String.◌∷◌ c text) = elim (begins separator (String.◌∷◌ c text)) [
  | true ↦ some (String.[], drop (text_length separator) (String.◌∷◌ c text))
  | false ↦ before_and_after c (cut separator text)
]

-- The separator does not begin in the text, even if the separator follows it.
abbrev pub IsFree : String → String → Type 0
IsFree separator String.[] = Unit
IsFree separator (String.◌∷◌ c text) =
    (begins separator (String.◌∷◌ c text ++ separator) ≡ false) × IsFree separator text

pub begins_self : (separator text : String) → begins separator (separator ++ text) ≡ true
begins_self String.[] text = refl
begins_self (String.◌∷◌ c separator) text =
    rw (cons-append, path→eq (code c) (code c) refl) (begins_self separator text)

begins-append :
    (separator text more : String)
    → text_length separator ≤ text_length text
    → begins separator (text ++ more) ≡ begins separator text
begins-append String.[] text more long = refl
begins-append (String.◌∷◌ c separator) String.[] more long = absurd (omega (arith, long))
begins-append (String.◌∷◌ c separator) (String.◌∷◌ d text) more long =
    rw (cons-append, begins-append separator text more (omega (arith, long))) refl

begins_shorter :
    (separator text more : String)
    → begins separator text ≡ true
    → begins separator (text ++ more) ≡ true
begins_shorter String.[] text more h = refl
begins_shorter (String.◌∷◌ c separator) String.[] more h = absurd (false≢true h)
begins_shorter (String.◌∷◌ c separator) (String.◌∷◌ d text) more h =
    let same : (code c == code d) ≡ true = and_left _ h in
    let rest = begins_shorter separator text more (and_right (code c == code d) h) in
    rw (cons-append, same, rest) refl

pub text_length-append :
    (one other : String) → text_length (one ++ other) ≡ text_length one + text_length other
text_length-append String.[] other = rw nil-append (omega arith)
text_length-append (String.◌∷◌ c one) other =
    rw cons-append (omega (arith, text_length-append one other))

skip_all :
    (separator skipped text : String)
    → split_from separator (text_length skipped) (skipped ++ text) ≡ split_from separator zero text
skip_all separator String.[] text = rw nil-append refl
skip_all separator (String.◌∷◌ c skipped) text = rw cons-append (skip_all separator skipped text)

-- A text that begins with a separator has an empty part before it.
pub split_at_separator :
    (c : Char) (separator text : String)
    → split_from (String.◌∷◌ c separator) zero (String.◌∷◌ c separator ++ text)
      ≡ (String.[], split (String.◌∷◌ c separator) text)
unfolding split
split_at_separator c separator text =
    let starts : begins (String.◌∷◌ c separator) (String.◌∷◌ c (separator ++ text)) ≡ true =
      ap (λ t. begins (String.◌∷◌ c separator) t) (sym (cons-append c separator text))
      ∙ begins_self (String.◌∷◌ c separator) text in
    rw (cons-append, split_from, starts, skip_all (String.◌∷◌ c separator) separator text) refl

pub not-begins :
    (separator text : String)
    → begins separator (text ++ separator) ≡ false
    → begins separator text ≡ false
not-begins separator text h = elim (Bool-cases (begins separator text)) [
  | inl begun ↦ absurd (false≢true (sym h ∙ begins_shorter separator text separator begun))
  | inr free ↦ free
]

pub drop_all : (dropped text : String) → drop (text_length dropped) (dropped ++ text) ≡ text
drop_all String.[] text = nil-append text
drop_all (String.◌∷◌ c dropped) text = rw cons-append (drop_all dropped text)

module _ (c : Char) (rest : String) where
  abbrev whole : String
  whole = String.◌∷◌ c rest

  split_from-part : (part : String) → IsFree whole part → split_from whole zero part ≡ (part, [])
  split_from-part String.[] free = refl
  split_from-part (String.◌∷◌ d part) free =
      rw (split_from, not-begins whole (String.◌∷◌ d part) free.0, split_from-part part free.1) refl

  pub not_here :
      (d : Char) (part text : String)
      → begins whole (String.◌∷◌ d part ++ whole) ≡ false
      → begins whole (String.◌∷◌ d (part ++ (whole ++ text))) ≡ false
  not_here d part text free =
      let long : text_length whole ≤ text_length (String.◌∷◌ d part ++ whole) =
        omega (arith, text_length-append (String.◌∷◌ d part) whole) in
      ap (λ t. begins whole t)
        (sym (append_assoc (String.◌∷◌ d part) whole text ∙ cons-append d part (whole ++ text)))
      ∙ begins-append whole (String.◌∷◌ d part ++ whole) text long
      ∙ free

  split_from-before :
      (part text : String)
      → IsFree whole part
      → split_from whole zero (part ++ (whole ++ text)) ≡ (part, split whole text)
  split_from-before String.[] text free = rw nil-append (split_at_separator c rest text)
  split_from-before (String.◌∷◌ d part) text free =
      rw
        (
          cons-append d part (whole ++ text),
          split_from,
          not_here d part text free.0,
          split_from-before part text free.1,
        )
        refl

  pub split-part : (part : String) → IsFree whole part → split whole part ≡ part ∷ []
  unfolding split
  split-part part free = rw (split_from-part part free) refl

  pub split-before :
      (part text : String)
      → IsFree whole part
      → split whole (part ++ (whole ++ text)) ≡ part ∷ split whole text
  unfolding split
  split-before part text free = rw (split_from-before part text free) refl

  pub cut-before :
      (part text : String)
      → IsFree whole part
      → cut whole (part ++ (whole ++ text)) ≡ some (part, text)
  cut-before String.[] text free =
      let starts : begins whole (String.◌∷◌ c (rest ++ text)) ≡ true =
        ap (λ t. begins whole t) (sym (cons-append c rest text)) ∙ begins_self whole text in
      rw (nil-append, cons-append, cut, starts, drop_all rest text) refl
  cut-before (String.◌∷◌ d part) text free =
      rw
        (
          cons-append d part (whole ++ text),
          cut,
          not_here d part text free.0,
          cut-before part text free.1,
        )
        refl

pub IsFree-append :
    (separator part text : String) → IsFree separator (part ++ text) → IsFree separator text
IsFree-append separator String.[] text free = subst (IsFree separator) (nil-append text) free
IsFree-append separator (String.◌∷◌ c part) text free =
    IsFree-append separator part text (subst (IsFree separator) (cons-append c part text) free).1

-- The test for it.
abbrev pub is_free : String → String → Bool
is_free separator String.[] = true
is_free separator (String.◌∷◌ c text) =
    not (begins separator (String.◌∷◌ c text ++ separator)) && is_free separator text

pub is_free-IsFree :
    (separator text : String) → is_free separator text ≡ true → IsFree separator text
is_free-IsFree separator String.[] h = tt
is_free-IsFree separator (String.◌∷◌ c text) h = (
  elim (Bool-cases (begins separator (String.◌∷◌ c text ++ separator))) [
    | inl begun ↦ absurd (false≢true (sym (ap not begun) ∙ and_left _ h))
    | inr free ↦ free
  ],
  is_free-IsFree separator text
      (and_right (not (begins separator (String.◌∷◌ c text ++ separator))) h),
)
