-- ===== src/Identifiers/Recovery.antt =====
-- A HAL identifier is found again in the URLs that are made of it.
use Prim.Native.Char.{Char, code}
use text.Mathlib.TextLemmas.{nil-append, cons-append, append_assoc}
use text.Mathlib.TextEquality.{Char-path}
use svp_harvester.Prelude.{
  eq_sym, All, String, ◌<>◌, Bool, true, false, ◌&&◌, ◌||◌, Option, none, some, List, [], ◌∷◌,
  contains, ◌==◌, string_eq, nat_eq, if◌then◌else◌, ◌≡◌, refl, sym, ap, ◌∙◌, Bool-cases, inl, inr,
  false≢true, and_left, and_right, eq→path,
}
use svp_harvester.Prelude.Splitting.{
  not_here, begins, drop, text_length, IsFree, drop_all, begins_self,
}
use svp_harvester.Identifiers.{
  is_one_of, skip_digits, take_digits, starts_with_digit, version_in, match_pattern, match_any,
}

abbrev pub all_digits : (Char → Bool) → String → Bool
all_digits is_digit String.[] = true
all_digits is_digit (String.◌∷◌ c text) = is_digit c && all_digits is_digit text

-- The digits are none of the characters that are stripped, nor the letter of a version.
pub record AreDigits (is_digit : Char → Bool) : Type 0 where
  pub kept : (c : Char) → is_digit c ≡ true → is_one_of "/document" c ≡ false
  pub no_version : (c : Char) → code c ≡ 118 → is_digit c ≡ false

module _ (is_digit : Char → Bool) where
  -- A number of at least one digit.
  pub record IsNumber (text : String) : Type 0 where
    pub digits : all_digits is_digit text ≡ true
    pub first : starts_with_digit is_digit text ≡ true

  pub skip_digits-stop :
      (number rest : String)
      → all_digits is_digit number ≡ true
      → starts_with_digit is_digit rest ≡ false
      → skip_digits is_digit (number <> rest) ≡ rest
  skip_digits-stop String.[] rest h stop =
      ap (skip_digits is_digit) (nil-append rest) ∙ stops rest stop
    where
      stops : (t : String) → starts_with_digit is_digit t ≡ false → skip_digits is_digit t ≡ t
      stops String.[] k = refl
      stops (String.◌∷◌ c t) k = rw k refl
  skip_digits-stop (String.◌∷◌ c number) rest h stop =
      ap (skip_digits is_digit) (cons-append c number rest)
      ∙ ap (λ b. if b then skip_digits is_digit (number <> rest) else String.◌∷◌ c (number <> rest))
          (and_left (all_digits is_digit number) h)
      ∙ skip_digits-stop number rest (and_right (is_digit c) h) stop

  pub take_digits_all :
      (number : String) → all_digits is_digit number ≡ true → take_digits is_digit number ≡ number
  take_digits_all String.[] h = refl
  take_digits_all (String.◌∷◌ c number) h =
      ap (λ b. if b then String.◌∷◌ c (take_digits is_digit number) else String.[])
        (and_left (all_digits is_digit number) h)
      ∙ ap (λ t. String.◌∷◌ c t) (take_digits_all number (and_right (is_digit c) h))

  pub starts-append :
      (number rest : String)
      → starts_with_digit is_digit number ≡ true
      → starts_with_digit is_digit (number <> rest) ≡ true
  starts-append String.[] rest h = absurd (false≢true h)
  starts-append (String.◌∷◌ c number) rest h =
      ap (starts_with_digit is_digit) (cons-append c number rest) ∙ h

-- A pattern that matches up to the hyphen is the whole part before it.
prefix_is_pattern :
    (other pattern rest : String)
    → IsFree "-" other
    → IsFree "-" pattern
    → begins (other <> "-") (pattern <> ("-" <> rest)) ≡ true
    → other ≡ pattern
prefix_is_pattern String.[] String.[] rest p q h = refl
prefix_is_pattern String.[] (String.◌∷◌ d pattern) rest p q h = absurd (
    false≢true (
      sym (not_here _ _ d pattern rest q.0)
      ∙ ap (begins "-") (sym (cons-append d pattern ("-" <> rest)))
      ∙ h))
prefix_is_pattern (String.◌∷◌ c other) String.[] rest p q h =
    let first : ((code c == 45) && begins (other <> "-") (String.[] <> rest)) ≡ true =
      sym (
        ap (λ s. begins s (String.[] <> ("-" <> rest))) (cons-append c other "-")
        ∙ ap (begins (String.◌∷◌ c (other <> "-")))
            (nil-append ("-" <> rest) ∙ cons-append "-" String.[] rest))
      ∙ h in
    let hyphen = eq_sym 45 (code c) ∙ and_left _ first in
    let begun = ap (begins "-") (cons-append c other "-") ∙ ap (λ b. b && true) hyphen in
    absurd (false≢true (sym p.0 ∙ begun))
prefix_is_pattern (String.◌∷◌ c other) (String.◌∷◌ d pattern) rest p q h =
    let both : ((code c == code d) && begins (other <> "-") (pattern <> ("-" <> rest))) ≡ true =
      sym (
        ap (λ s. begins s (String.◌∷◌ d pattern <> ("-" <> rest))) (cons-append c other "-")
        ∙ ap (begins (String.◌∷◌ c (other <> "-"))) (cons-append d pattern ("-" <> rest)))
      ∙ h in
    let same = Char-path c d (eq→path (code c) (code d) (and_left _ both)) in
    let rests = prefix_is_pattern other pattern rest p.1 q.1 (and_right (code c == code d) both) in
    λ i. String.◌∷◌ (same i) (rests i)

module _ (is_digit : Char → Bool) (pattern rest : String) where
  abbrev hal_id_with : String
  hal_id_with = pattern <> ("-" <> rest)

  abbrev found : Option (Option String)
  found = some (version_in is_digit (skip_digits is_digit rest))

  match_pattern-itself :
      starts_with_digit is_digit rest ≡ true → match_pattern is_digit pattern hal_id_with ≡ found
  match_pattern-itself h =
      let apart = append_assoc pattern "-" rest in
      let begun = ap (begins (pattern <> "-")) (sym apart) ∙ begins_self (pattern <> "-") rest in
      let after =
        ap (drop (text_length (pattern <> "-"))) (sym apart) ∙ drop_all (pattern <> "-") rest in
      ap
        (λ b.
          if b && starts_with_digit is_digit (drop (text_length (pattern <> "-")) hal_id_with)
          then some (
              version_in is_digit
                (skip_digits is_digit (drop (text_length (pattern <> "-")) hal_id_with)))
          else none)
        begun
      ∙ ap
          (λ t.
            if starts_with_digit is_digit t
            then some (version_in is_digit (skip_digits is_digit t))
            else none)
          after
      ∙ ap (λ b. if b then found else none) h

  pub match_any-found :
      (patterns : List String)
      → starts_with_digit is_digit rest ≡ true
      → IsFree "-" pattern
      → All (IsFree "-") patterns
      → contains patterns pattern ≡ true
      → match_any is_digit patterns hal_id_with ≡ found
  match_any-found [] h q free has = absurd (false≢true has)
  match_any-found (other ∷ patterns) h q free has =
      elim (Bool-cases (begins (other <> "-") hal_id_with)) [
        | inl begun ↦
            let same = prefix_is_pattern other pattern rest free.0 q begun in
            ap
              (λ o. elim o [
                | some version ↦ some version
                | none ↦ match_any is_digit patterns hal_id_with
              ])
              (ap (λ p. match_pattern is_digit p hal_id_with) same ∙ match_pattern-itself h)
        | inr not_begun ↦ elim (Bool-cases (pattern == other)) [
          | inl same ↦ absurd (
              false≢true (
                sym not_begun
                ∙ ap (λ p. begins (p <> "-") hal_id_with) (sym (eq→path pattern other same))
                ∙ ap (begins (pattern <> "-")) (sym (append_assoc pattern "-" rest))
                ∙ begins_self (pattern <> "-") rest))
          | inr different ↦
              ap
                (λ b.
                  elim (if b
                      && starts_with_digit is_digit (drop (text_length (other <> "-")) hal_id_with)
                    then some (
                        version_in is_digit
                          (skip_digits is_digit (drop (text_length (other <> "-")) hal_id_with)))
                    else none) [
                      | some version ↦ some version
                      | none ↦ match_any is_digit patterns hal_id_with
                    ])
                not_begun
              ∙ match_any-found patterns h q free.1
                  (sym (ap (λ b. b || contains patterns pattern) different) ∙ has)
        ]
      ]
