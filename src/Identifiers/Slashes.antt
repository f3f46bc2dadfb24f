-- ===== src/Identifiers/Slashes.antt =====
-- Texts without a slash, and the accepted patterns of HAL identifiers.
use Prim.Native.Char.{code}
use text.Mathlib.TextLemmas.{nil-append, cons-append}
use svp_harvester.Prelude.{
  eq_sym, All, not, String, ◌<>◌, Bool, true, ◌&&◌, ◌||◌, List, [], ◌∷◌, all, contains, ◌==◌,
  string_eq, nat_eq, ◌≡◌, refl, sym, ap, ◌∙◌, subst, Bool-cases, inl, inr, false≢true, and_left,
  and_right, eq→path,
}
use svp_harvester.Prelude.Splitting.{begins, IsFree, is_free}
use svp_harvester.Identifiers.{accepted_patterns}

abbrev pub no_slash : String → Bool
no_slash String.[] = true
no_slash (String.◌∷◌ c text) = not (code c == 47) && no_slash text

pub no_slash-append :
    (text more : String)
    → no_slash text ≡ true
    → no_slash more ≡ true
    → no_slash (text <> more) ≡ true
no_slash-append String.[] more h k = ap no_slash (nil-append more) ∙ k
no_slash-append (String.◌∷◌ c text) more h k =
    ap no_slash (cons-append c text more)
    ∙ ap (λ b. b && no_slash (text <> more)) (and_left (no_slash text) h)
    ∙ no_slash-append text more (and_right (not (code c == 47)) h) k

pub no_slash-IsFree : (text : String) → no_slash text ≡ true → IsFree "/" text
no_slash-IsFree String.[] h = tt
no_slash-IsFree (String.◌∷◌ c text) h = elim (Bool-cases (code c == 47)) [
  | inl hit ↦ absurd (false≢true (sym (ap not hit) ∙ and_left (no_slash text) h))
  | inr miss ↦ (
    ap (begins "/") (cons-append c text "/") ∙ ap (λ b. b && true) (eq_sym 47 (code c) ∙ miss),
    no_slash-IsFree text (and_right (not (code c == 47)) h),
  )
]

pub patterns_free : all (is_free "-") accepted_patterns ≡ true
unfolding nat_eq
patterns_free = refl

pub patterns_no_slash : all no_slash accepted_patterns ≡ true
unfolding nat_eq
patterns_no_slash = refl

pub all-All :
    (p : String → Bool) (P : String → Type 0) (texts : List String)
    → ((t : String) → p t ≡ true → P t)
    → all p texts ≡ true
    → All P texts
all-All p P [] f h = tt
all-All p P (t ∷ texts) f h =
    (f t (and_left (all p texts) h), all-All p P texts f (and_right (p t) h))

pub All-contains :
    (P : String → Type 0) (texts : List String) (text : String)
    → All P texts
    → contains texts text ≡ true
    → P text
All-contains P [] text h has = absurd (false≢true has)
All-contains P (t ∷ texts) text h has = elim (Bool-cases (text == t)) [
  | inl same ↦ subst P (sym (eq→path text t same)) h.0
  | inr other ↦ All-contains P texts text h.1 (sym (ap (λ b. b || contains texts text) other) ∙ has)
]
