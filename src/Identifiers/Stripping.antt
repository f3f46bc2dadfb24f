-- ===== src/Identifiers/Stripping.antt =====
-- What is left of the path of a URL of HAL when its end is taken off.
use Prim.Native.Char.{Char, code}
use text.Mathlib.TextLemmas.{nil-append, cons-append}
use svp_harvester.Prelude.{
  arith, not, String, ◌<>◌, Bool, true, false, ◌&&◌, List, [], ◌∷◌, ◌==◌, string_eq, nat_eq,
  if◌then◌else◌, ◌≡◌, ◌≢◌, refl, sym, ap, ◌∙◌, Bool-cases, inl, inr, false≢true, and_left,
  and_right, path→eq, eq→path,
}
use svp_harvester.Prelude.Splitting.{
  text_length-append, split-part, not-begins, not_here, split_at_separator, drop_all, begins_self,
  begins, drop, text_length, IsFree, split, split_from,
}
use svp_harvester.Identifiers.{
  is_one_of, strip_onto, rstrip, is_rest, remove_file, last_of, last_part, removesuffix,
}

module _ (chars : String) where
  -- The last character is not one of the characters.
  abbrev pub ends_kept : String → Bool
  ends_kept String.[] = false
  ends_kept (String.◌∷◌ c String.[]) = not (is_one_of chars c)
  ends_kept (String.◌∷◌ c (String.◌∷◌ d text)) = ends_kept (String.◌∷◌ d text)

  abbrev pub all_of : String → Bool
  all_of String.[] = true
  all_of (String.◌∷◌ c text) = is_one_of chars c && all_of text

  rstrip-all : (text : String) → all_of text ≡ true → rstrip chars text ≡ String.[]
  rstrip-all String.[] h = refl
  rstrip-all (String.◌∷◌ c text) h =
      ap (strip_onto chars c) (rstrip-all text (and_right (is_one_of chars c) h))
      ∙ ap (λ b. if b then String.[] else String.◌∷◌ c String.[]) (and_left (all_of text) h)

  pub rstrip-kept : (text : String) → ends_kept text ≡ true → rstrip chars text ≡ text
  rstrip-kept String.[] h = absurd (false≢true h)
  rstrip-kept (String.◌∷◌ c String.[]) h = elim (Bool-cases (is_one_of chars c)) [
    | inl hit ↦ absurd (false≢true (sym (ap not hit) ∙ h))
    | inr miss ↦ rw miss refl
  ]
  rstrip-kept (String.◌∷◌ c (String.◌∷◌ d text)) h =
      ap (strip_onto chars c) (rstrip-kept (String.◌∷◌ d text) h)

  pub rstrip-append :
      (text more : String)
      → ends_kept text ≡ true
      → all_of more ≡ true
      → rstrip chars (text <> more) ≡ text
  rstrip-append String.[] more h k = absurd (false≢true h)
  rstrip-append (String.◌∷◌ c String.[]) more h k = elim (Bool-cases (is_one_of chars c)) [
    | inl hit ↦ absurd (false≢true (sym (ap not hit) ∙ h))
    | inr miss ↦
        ap (rstrip chars)
          (cons-append c String.[] more ∙ ap (λ t. String.◌∷◌ c t) (nil-append more))
        ∙ ap (strip_onto chars c) (rstrip-all more k)
        ∙ ap (λ b. if b then String.[] else String.◌∷◌ c String.[]) miss
  ]
  rstrip-append (String.◌∷◌ c (String.◌∷◌ d text)) more h k =
      ap (rstrip chars) (cons-append c (String.◌∷◌ d text) more)
      ∙ ap (strip_onto chars c) (rstrip-append (String.◌∷◌ d text) more h k)

  pub ends_kept-append :
      (text more : String) → ends_kept more ≡ true → ends_kept (text <> more) ≡ true
  ends_kept-append String.[] more h = ap ends_kept (nil-append more) ∙ h
  ends_kept-append (String.◌∷◌ c text) more h =
      ap ends_kept (cons-append c text more) ∙ longer (text <> more) (ends_kept-append text more h)
    where
      longer : (t : String) → ends_kept t ≡ true → ends_kept (String.◌∷◌ c t) ≡ true
      longer String.[] k = absurd (false≢true k)
      longer (String.◌∷◌ d t) k = k

-- A path before a file's part, without the part of a file itself.
pub remove_file-free : (text : String) → IsFree "/file" text → remove_file text ≡ text
remove_file-free String.[] free = refl
remove_file-free (String.◌∷◌ c text) free =
    let here = not-begins "/file" (String.◌∷◌ c text) free.0 in
    ap
      (λ b.
        if b && is_rest (drop 5 (String.◌∷◌ c text))
        then String.[]
        else String.◌∷◌ c (remove_file text))
      here
    ∙ ap (λ t. String.◌∷◌ c t) (remove_file-free text free.1)

remove_file-here :
    (c : Char) (text : String)
    → begins "/file" (String.◌∷◌ c text) ≡ true
    → is_rest (drop 5 (String.◌∷◌ c text)) ≡ true
    → remove_file (String.◌∷◌ c text) ≡ String.[]
remove_file-here c text begun ends =
    ap
      (λ b.
        if b && is_rest (drop 5 (String.◌∷◌ c text))
        then String.[]
        else String.◌∷◌ c (remove_file text))
      begun
    ∙ ap (λ b. if b then String.[] else String.◌∷◌ c (remove_file text)) ends

is_rest-slash :
    (c : Char) (name : String) → code c ≡ 47 → is_rest (String.◌∷◌ c String.[] <> name) ≡ true
is_rest-slash c name h = ap is_rest (cons-append c String.[] name) ∙ path→eq (code c) 47 h

pub remove_file-before :
    (text name : String)
    → IsFree "/file" text
    → remove_file (text <> ("/file" <> ("/" <> name))) ≡ text
remove_file-before String.[] name free =
    let whole = cons-append _ "file" ("/" <> name) in
    ap remove_file (nil-append ("/file" <> ("/" <> name)) ∙ whole)
    ∙ remove_file-here "/" ("file" <> ("/" <> name))
        (ap (begins "/file") (sym whole) ∙ begins_self "/file" ("/" <> name))
        (ap (λ t. is_rest (drop 5 t)) (sym whole)
          ∙ ap is_rest (drop_all "/file" ("/" <> name))
          ∙ is_rest-slash _ name refl)
remove_file-before (String.◌∷◌ c text) name free =
    let rest = text <> ("/file" <> ("/" <> name)) in
    ap remove_file (cons-append c text ("/file" <> ("/" <> name)))
    ∙ ap
        (λ b.
          if b && is_rest (drop 5 (String.◌∷◌ c rest))
          then String.[]
          else String.◌∷◌ c (remove_file rest))
        (not_here _ _ c text ("/" <> name) free.0)
    ∙ ap (λ t. String.◌∷◌ c t) (remove_file-before text name free.1)

longer :
    (d c : Char) (text suffix : String)
    → String.◌∷◌ d (text <> String.◌∷◌ c suffix) ≢ String.◌∷◌ c suffix
longer d c text suffix e =
    let lengths = ap text_length e in
    omega (arith, lengths, text_length-append text (String.◌∷◌ c suffix))

pub removesuffix-append :
    (text : String) (c : Char) (suffix : String)
    → removesuffix (String.◌∷◌ c suffix) (text <> String.◌∷◌ c suffix) ≡ text
removesuffix-append String.[] c suffix =
    ap (removesuffix (String.◌∷◌ c suffix)) (nil-append (String.◌∷◌ c suffix))
    ∙ ap (λ b. if b then String.[] else String.◌∷◌ c (removesuffix (String.◌∷◌ c suffix) suffix))
        (path→eq (String.◌∷◌ c suffix) (String.◌∷◌ c suffix) refl)
removesuffix-append (String.◌∷◌ d text) c suffix =
    let whole = String.◌∷◌ d (text <> String.◌∷◌ c suffix) in
    ap (removesuffix (String.◌∷◌ c suffix)) (cons-append d text (String.◌∷◌ c suffix))
    ∙ elim (Bool-cases (whole == String.◌∷◌ c suffix)) [
      | inl same ↦ absurd (longer d c text suffix (eq→path whole (String.◌∷◌ c suffix) same))
      | inr other ↦
          ap
            (λ b.
              if b
              then String.[]
              else String.◌∷◌ d (removesuffix (String.◌∷◌ c suffix) (text <> String.◌∷◌ c suffix)))
            other
          ∙ ap (λ t. String.◌∷◌ d t) (removesuffix-append text c suffix)
    ]

-- The parts after the first end with a part.
abbrev EndWith : String → List String → Type 0
EndWith part parts =
    (head : String) × (tail : List String) × (parts ≡ head ∷ tail) × (last_of head tail ≡ part)

abbrev chosen : Char → String × List String → Bool → String × List String
chosen c found b = elim b [
  | true ↦ (String.[], found.0 ∷ found.1)
  | false ↦ (String.◌∷◌ c found.0, found.1)
]

split_from-EndWith :
    (front part : String)
    → IsFree "/" part
    → EndWith part (split_from "/" 0 (front <> ("/" <> part))).1
split_from-EndWith String.[] part free = (
  part,
  [],
  ap (λ t. (split_from "/" 0 t).1) (nil-append ("/" <> part))
      ∙ ap (λ r. r.1) (split_at_separator _ _ part)
      ∙ split-part _ _ part free,
  refl,
)
split_from-EndWith (String.◌∷◌ c front) part free =
    let rest = front <> ("/" <> part) in
    let found = split_from "/" 0 rest in
    let (head, tail, parts, ends) = split_from-EndWith front part free in
    let first = ap (λ t. (split_from "/" 0 t).1) (cons-append c front ("/" <> part)) in
    elim (Bool-cases (begins "/" (String.◌∷◌ c rest))) [
      | inl begun ↦ (
        found.0,
        found.1,
        first ∙ ap (λ b. (chosen c found b).1) begun,
        ap (λ l. last_of found.0 l) parts ∙ ends,
      )
      | inr other ↦ (head, tail, first ∙ ap (λ b. (chosen c found b).1) other ∙ parts, ends)
    ]

-- The last part after a slash.
pub last_part-split :
    (front part : String) → IsFree "/" part → last_part (split "/" (front <> ("/" <> part))) ≡ part
unfolding split
last_part-split front part free =
    let found = split_from "/" 0 (front <> ("/" <> part)) in
    let (head, tail, parts, ends) = split_from-EndWith front part free in
    ap (λ l. last_of found.0 l) parts ∙ ends
