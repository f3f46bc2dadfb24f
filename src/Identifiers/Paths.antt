-- ===== src/Identifiers/Paths.antt =====
-- The identifier of a document of HAL is inferred from the URLs of its pages.
use svp_harvester.Identifiers.Slashes.{
  no_slash, no_slash-IsFree, patterns_free, patterns_no_slash, all-All, All-contains,
}
use Prim.Native.Char.{Char}
use svp_harvester.Prelude.{
  arith, not, String, ◌<>◌, Bool, true, false, ◌||◌, Option, none, some, List, [], ◌∷◌, ◌++◌, any,
  contains, ◌==◌, string_eq, nat_eq, if◌then◌else◌, ◌≡◌, refl, ap, ◌∙◌, Bool-cases, inl, inr,
  eq→path, any-append_right,
}
use svp_harvester.Prelude.Splitting.{
  text_length, text_length-append, IsFree, is_free, is_free-IsFree, split,
}
use svp_harvester.Identifiers.{
  accepted_patterns, ParsedUrl, rstrip, remove_file, last_part, version_in, match_any,
  without_version, hal_id_in, is_in, hal_id_of, extract_hal_id, infer_from, infer, Rule,
  infer_identifiers, hal_id_from_hal_url,
}
use svp_harvester.Identifiers.Stripping.{
  ends_kept, rstrip-kept, rstrip-append, ends_kept-append, remove_file-free, remove_file-before,
  last_part-split,
}
use svp_harvester.Identifiers.Recovery.{
  AreDigits, IsNumber, skip_digits-stop, starts-append, match_any-found,
}
use svp_harvester.Identifiers.Versions.{
  version_text, full_id, IsVersion, full_id-kept, full_id-no_slash, without-version, stops,
}

-- What follows the identifier in a path.
pub data Ending : Type 0 where
  page document : Ending
  file : String → Ending

abbrev pub ending_text : Ending → String
ending_text page = ""
ending_text document = "/document"
ending_text (file name) = "/file" <> ("/" <> name)

-- The name of a file does not end with a character that is stripped.
abbrev pub IsKept : Ending → Type 0
IsKept page = Unit
IsKept document = Unit
IsKept (file name) = ends_kept "/document" name ≡ true

-- A reference that has an identifier of HAL gets none.
infer_identifiers-present :
    (is_digit : Char → Bool) (urlparse : String → ParsedUrl) (rules : List Rule)
    (pages : List (Option String)) (identifiers : List (String × String))
    → any (λ identifier. identifier.0 == "hal") identifiers ≡ true
    → infer_identifiers is_digit urlparse rules pages identifiers ≡ identifiers
unfolding infer
infer_identifiers-present is_digit urlparse [] pages identifiers h = refl
infer_identifiers-present is_digit urlparse (hal_id_from_hal_url ∷ rules) pages identifiers h =
    ap
      (λ b.
        infer_identifiers is_digit urlparse rules pages
          (if b then identifiers else infer_from is_digit urlparse pages identifiers))
      h
    ∙ infer_identifiers-present is_digit urlparse rules pages identifiers h

module _ (is_digit : Char → Bool) (digits : AreDigits is_digit) where
  module _ (pattern number : String) (n : IsNumber is_digit number) where
    module _ (front : String) (version : Option String) (v : IsVersion is_digit version) where
      -- The path up to the identifier, with the version.
      abbrev pub path_of : String
      path_of = front <> ("/" <> full_id pattern number version)

      path_of-kept : ends_kept "/document" path_of ≡ true
      path_of-kept = ends_kept-append "/document" front ("/" <> full_id pattern number version) (
          ends_kept-append "/document" "/" (full_id pattern number version)
            (full_id-kept is_digit digits pattern number n version v))

      without_ending :
          (ending : Ending)
          → IsKept ending
          → IsFree "/file" path_of
          → remove_file (rstrip "/document" (path_of <> ending_text ending)) ≡ path_of
      unfolding nat_eq
      without_ending page k free =
          ap remove_file (rstrip-append "/document" path_of "" path_of-kept refl)
          ∙ remove_file-free path_of free
      without_ending document k free =
          ap remove_file (rstrip-append "/document" path_of "/document" path_of-kept refl)
          ∙ remove_file-free path_of free
      without_ending (file name) k free =
          ap remove_file (
            rstrip-kept "/document" (path_of <> ("/file" <> ("/" <> name))) (
              ends_kept-append "/document" path_of ("/file" <> ("/" <> name)) (
                ends_kept-append "/document" "/file" ("/" <> name)
                  (ends_kept-append "/document" "/" name k))))
          ∙ remove_file-before path_of name free

      pub hal_id_in-path :
          (ending : Ending)
          → contains accepted_patterns pattern ≡ true
          → IsKept ending
          → IsFree "/file" path_of
          → hal_id_in is_digit (path_of <> ending_text ending) ≡ some (pattern <> ("-" <> number))
      unfolding hal_id_in
      hal_id_in-path ending accepted k free =
          let hyphens =
            all-All (is_free "-") (IsFree "-") accepted_patterns (is_free-IsFree "-")
              patterns_free in
          let slashes =
            all-All no_slash (λ t. no_slash t ≡ true) accepted_patterns (λ t h. h)
              patterns_no_slash in
          let no_slashes =
            full_id-no_slash is_digit digits pattern number n version v
              (All-contains (λ t. no_slash t ≡ true) accepted_patterns pattern slashes accepted) in
          let last =
            ap (λ t. last_part (split "/" t)) (without_ending ending k free)
            ∙ last_part-split front (full_id pattern number version)
                (no_slash-IsFree (full_id pattern number version) no_slashes) in
          let matched =
            match_any-found is_digit pattern (number <> version_text version) accepted_patterns
              (starts-append is_digit number (version_text version) n.first)
              (All-contains (IsFree "-") accepted_patterns pattern hyphens accepted) hyphens
              accepted in
          ap (λ t. without_version t (match_any is_digit accepted_patterns t)) last
          ∙ ap (without_version (full_id pattern number version)) (
              matched
              ∙ ap (λ t. some (version_in is_digit t))
                  (skip_digits-stop is_digit number (version_text version) n.digits
                    (stops is_digit digits pattern number n version)))
          ∙ without-version is_digit digits pattern number n version v

      not_empty : ((pattern <> ("-" <> number)) == "") ≡ false
      not_empty = elim (Bool-cases ((pattern <> ("-" <> number)) == "")) [
        | inl empty ↦
            let none_left = ap text_length (eq→path (pattern <> ("-" <> number)) "" empty) in
            absurd (
              omega (
                arith,
                none_left,
                text_length-append pattern ("-" <> number),
                text_length-append "-" number,
              ))
        | inr full ↦ full
      ]

      module _ (urlparse : String → ParsedUrl) (url scheme netloc : String) (ending : Ending) where
        -- For a reference without an identifier of HAL and a first page whose URL has a scheme, a host with
        -- `hal.` and, after some path without `/file`, an identifier with one of the accepted patterns, a
        -- number, a version or none, and then nothing, `/document` or a file whose name does not end in a
        -- character of `/document`: the identifier without its version joins the others, and further rules add
        -- nothing. The digits are any characters other than those of `/document` and `v`.
        pub infer_identifiers-hal_id :
            (rules : List Rule) (pages : List (Option String))
            (identifiers : List (String × String))
            → contains accepted_patterns pattern ≡ true
            → IsKept ending
            → IsFree "/file" path_of
            → (url == "") ≡ false
            → (scheme == "") ≡ false
            → (netloc == "") ≡ false
            → is_in "hal." netloc ≡ true
            → urlparse url
              ≡ record { scheme = scheme; netloc = netloc; path = path_of <> ending_text ending }
            → any (λ identifier. identifier.0 == "hal") identifiers ≡ false
            → infer_identifiers is_digit urlparse
                (hal_id_from_hal_url ∷ rules)
                (some url ∷ pages)
                identifiers
              ≡ identifiers ++ ("hal", pattern <> ("-" <> number)) ∷ []
        unfolding infer extract_hal_id string_eq
        infer_identifiers-hal_id rules pages identifiers accepted k free url_given scheme_given
              netloc_given in_hal parsed missing =
            let path = path_of <> ending_text ending in
            let of_url : hal_id_of is_digit
                  (record { scheme = scheme; netloc = netloc; path = path })
                ≡ some (pattern <> ("-" <> number)) =
              ap
                (λ b.
                  if b || ((netloc == "") || not (is_in "hal." netloc))
                  then none
                  else hal_id_in is_digit path)
                scheme_given
              ∙ ap (λ b. if b || not (is_in "hal." netloc) then none else hal_id_in is_digit path)
                  netloc_given
              ∙ ap (λ b. if not b then none else hal_id_in is_digit path) in_hal
              ∙ hal_id_in-path ending accepted k free in
            let extracted : extract_hal_id is_digit urlparse (some url)
                ≡ some (pattern <> ("-" <> number)) =
              ap (λ b. if b then none else hal_id_of is_digit (urlparse url)) url_given
              ∙ ap (hal_id_of is_digit) parsed
              ∙ of_url in
            let rest = infer_from is_digit urlparse pages identifiers in
            let inferred : infer is_digit urlparse (some url ∷ pages) identifiers
                ≡ identifiers ++ ("hal", pattern <> ("-" <> number)) ∷ [] =
              ap
                (λ b.
                  if b
                  then identifiers
                  else infer_from is_digit urlparse (some url ∷ pages) identifiers)
                missing
              ∙ ap
                  (λ o. elim o [
                    | some hal_id ↦
                        if hal_id == "" then rest else identifiers ++ ("hal", hal_id) ∷ []
                    | none ↦ rest
                  ])
                  extracted
              ∙ ap
                  (λ b. if b then rest else identifiers ++ ("hal", pattern <> ("-" <> number)) ∷ [])
                  not_empty in
            let found = identifiers ++ ("hal", pattern <> ("-" <> number)) ∷ [] in
            ap (infer_identifiers is_digit urlparse rules (some url ∷ pages)) inferred
            ∙ infer_identifiers-present is_digit urlparse rules (some url ∷ pages) found (
                any-append_right (λ identifier. identifier.0 == "hal") identifiers
                  (("hal", pattern <> ("-" <> number)) ∷ []) refl)
