-- ===== src/Identifiers/Versions.antt =====
-- The identifiers of HAL with their versions: no slash, nothing that is stripped, and the version
-- is taken off again.
use svp_harvester.Identifiers.Slashes.{no_slash, no_slash-append}
use Prim.Native.Char.{Char, code}
use text.Mathlib.TextLemmas.{nil-append, cons-append, append_assoc, append-nil}
use svp_harvester.Prelude.{
  not, String, ◌<>◌, Bool, true, false, ◌&&◌, ◌||◌, Option, none, some, ◌==◌, string_eq, nat_eq,
  if◌then◌else◌, ◌≡◌, refl, sym, ap, ◌∙◌, Bool-cases, inl, inr, false≢true, and_left, and_right,
  path→eq,
}
use svp_harvester.Identifiers.{
  is_one_of, removesuffix, take_digits, starts_with_digit, version_in, without_version,
}
use svp_harvester.Identifiers.Stripping.{ends_kept, ends_kept-append, removesuffix-append}
use svp_harvester.Identifiers.Recovery.{AreDigits, IsNumber, all_digits, take_digits_all}

-- The version of an identifier in a path: none, or `v` with a number.
abbrev pub version_text : Option String → String
version_text none = ""
version_text (some number) = "v" <> number

-- The identifier as a path shows it, with its version.
abbrev pub full_id : String → String → Option String → String
full_id pattern number version = pattern <> ("-" <> (number <> version_text version))

-- The number of a version, if there is one.
abbrev pub IsVersion : (Char → Bool) → Option String → Type 0
IsVersion is_digit none = Unit
IsVersion is_digit (some number) = IsNumber is_digit number

module _ (is_digit : Char → Bool) (digits : AreDigits is_digit) where
  digit-no_slash : (c : Char) → is_digit c ≡ true → not (code c == 47) ≡ true
  digit-no_slash c h = elim (Bool-cases (code c == 47)) [
    | inl hit ↦
        absurd (false≢true (sym (digits.kept c h) ∙ ap (λ b. b || is_one_of "document" c) hit))
    | inr miss ↦ ap not miss
  ]

  number-no_slash : (number : String) → all_digits is_digit number ≡ true → no_slash number ≡ true
  number-no_slash String.[] h = refl
  number-no_slash (String.◌∷◌ c number) h =
      ap (λ b. b && no_slash number) (digit-no_slash c (and_left (all_digits is_digit number) h))
      ∙ number-no_slash number (and_right (is_digit c) h)

  number-kept :
      (c : Char) (number : String)
      → all_digits is_digit (String.◌∷◌ c number) ≡ true
      → ends_kept "/document" (String.◌∷◌ c number) ≡ true
  number-kept c String.[] h = ap not (digits.kept c (and_left true h))
  number-kept c (String.◌∷◌ d number) h = number-kept d number (and_right (is_digit c) h)

  IsNumber-kept : (number : String) → IsNumber is_digit number → ends_kept "/document" number ≡ true
  IsNumber-kept String.[] n = absurd (false≢true n.first)
  IsNumber-kept (String.◌∷◌ c number) n = number-kept c number n.digits

  module _ (pattern number : String) (n : IsNumber is_digit number) where
    pub full_id-kept :
        (version : Option String)
        → IsVersion is_digit version
        → ends_kept "/document" (full_id pattern number version) ≡ true
    full_id-kept none v = ends_kept-append "/document" pattern ("-" <> (number <> "")) (
        ends_kept-append "/document" "-" (number <> "")
          (ap (ends_kept "/document") (append-nil number) ∙ IsNumber-kept number n))
    full_id-kept (some other) v =
        ends_kept-append "/document" pattern ("-" <> (number <> ("v" <> other))) (
          ends_kept-append "/document" "-" (number <> ("v" <> other)) (
            ends_kept-append "/document" number ("v" <> other)
              (ends_kept-append "/document" "v" other (IsNumber-kept other v))))

    version_text-no_slash :
        (version : Option String)
        → IsVersion is_digit version
        → no_slash (version_text version) ≡ true
    unfolding nat_eq
    version_text-no_slash none v = refl
    version_text-no_slash (some other) v =
        no_slash-append "v" other refl (number-no_slash other v.digits)

    pub full_id-no_slash :
        (version : Option String)
        → IsVersion is_digit version
        → no_slash pattern ≡ true
        → no_slash (full_id pattern number version) ≡ true
    unfolding nat_eq
    full_id-no_slash version v h =
        no_slash-append pattern ("-" <> (number <> version_text version)) h (
          no_slash-append "-" (number <> version_text version) refl (
            no_slash-append number (version_text version) (number-no_slash number n.digits)
              (version_text-no_slash version v)))

    pub stops :
        (version : Option String) → starts_with_digit is_digit (version_text version) ≡ false
    stops none = refl
    stops (some other) =
        ap (starts_with_digit is_digit) (cons-append "v" "" other) ∙ digits.no_version "v" refl

    -- What remains without the version.
    pub without-version :
        (version : Option String)
        → IsVersion is_digit version
        → without_version
            (full_id pattern number version)
            (some (version_in is_digit (version_text version)))
          ≡ some (pattern <> ("-" <> number))
    without-version none v = ap (λ t. some (pattern <> ("-" <> t))) (append-nil number)
    without-version (some other) v =
        let tail : "v" <> other ≡ String.◌∷◌ "v" other =
          cons-append "v" "" other ∙ ap (λ t. String.◌∷◌ "v" t) (nil-append other) in
        let group : version_in is_digit ("v" <> other) ≡ some (String.◌∷◌ "v" other) =
          ap (version_in is_digit) tail
          ∙ ap
              (λ b.
                if b && starts_with_digit is_digit other
                then some (String.◌∷◌ "v" (take_digits is_digit other))
                else none)
              (path→eq (code "v") 118 refl)
          ∙ ap (λ b. if b then some (String.◌∷◌ "v" (take_digits is_digit other)) else none) v.first
          ∙ ap (λ t. some (String.◌∷◌ "v" t)) (take_digits_all is_digit other v.digits) in
        let full : full_id pattern number (some other)
            ≡ (pattern <> ("-" <> number)) <> String.◌∷◌ "v" other =
          ap (λ t. pattern <> ("-" <> (number <> t))) tail
          ∙ ap (λ t. pattern <> t) (sym (append_assoc "-" number (String.◌∷◌ "v" other)))
          ∙ sym (append_assoc pattern ("-" <> number) (String.◌∷◌ "v" other)) in
        ap (λ o. without_version (full_id pattern number (some other)) (some o)) group
        ∙ ap (λ t. some (removesuffix (String.◌∷◌ "v" other) t)) full
        ∙ ap (λ t. some t) (removesuffix-append (pattern <> ("-" <> number)) "v" other)
