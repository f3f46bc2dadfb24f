-- ===== src/Sources/Hal/Authors.antt =====
-- The contributors of a document of HAL are read back from the fields in which they are written.
use text.Mathlib.TextLemmas.{append_assoc}
use svp_harvester.Prelude.{
  ℕ, suc, String, ◌<>◌, true, Option, none, some, List, [], ◌∷◌, map, length, All, ◌≡◌, refl, ap,
  ◌∙◌, nat_eq, path→eq, if◌then◌else◌,
}
use svp_harvester.Prelude.Action.{ok}
use svp_harvester.Prelude.Splitting.{
  IsFree, cut, split, split-part, split-before, cut-before, IsFree-append,
}
use svp_harvester.Contributors.{Identifier}
use svp_harvester.Contributors.Contributions.{ContributionInformations}
use svp_harvester.Sources.Hal.{Payload, get, texts, facet_separator}
use svp_harvester.Sources.Hal.Contributions.{
  is_matched, is_line, matched, is_contributor, parse_contributor, somes, informations,
  informations_from, contribution_informations,
}

-- An author of a document. `person_id` is what the code calls `id_hal`.
pub record Author : Type 0 where
  pub name : String
  pub form_id : String
  pub person_id : String
  pub id_hal_s : String
  pub quality : String
  pub first_name : String
  pub last_name : String

abbrev pub ids : Author → String
ids a = a.form_id <> ("-" <> a.person_id)

-- The text of an author in `authFullNameFormIDPersonIDIDHal_fs`.
abbrev pub printed : Author → String
printed a = a.name <> (facet_separator <> (ids a <> (facet_separator <> a.id_hal_s)))

-- The separators do not occur in the parts, and no line ends in them.
pub record IsPrintable (a : Author) : Type 0 where
  pub name_free : IsFree facet_separator a.name
  pub ids_free : IsFree facet_separator (ids a)
  pub id_hal_s_free : IsFree facet_separator a.id_hal_s
  pub form_id_free : IsFree "-" a.form_id
  pub person_id_free : IsFree "-" a.person_id
  pub name_line : is_line a.name ≡ true
  pub form_id_line : is_line a.form_id ≡ true
  pub person_id_line : is_line a.person_id ≡ true

-- The fields of a document with the authors.
pub record HasAuthors (payload : Payload) (authors : List Author) : Type 0 where
  pub contributors : texts (get "authFullNameFormIDPersonIDIDHal_fs" payload) ≡ map printed authors
  pub qualities : texts (get "authQuality_s" payload) ≡ map (λ a. a.quality) authors
  pub first_names : texts (get "authFirstName_s" payload) ≡ map (λ a. a.first_name) authors
  pub last_names : texts (get "authLastName_s" payload) ≡ map (λ a. a.last_name) authors

matched_part :
    (pattern part rest : String)
    → cut pattern (part <> (pattern <> rest)) ≡ some (part, rest)
    → is_line part ≡ true
    → matched pattern (some (part <> (pattern <> rest))) ≡ some rest
matched_part pattern part rest h line =
    ap (λ o. elim o [ none ↦ none | some parts ↦ if is_line parts.0 then some parts.1 else none ]) h
    ∙ ap (λ b. if b then some rest else none) line

module _ (a : Author) (p : IsPrintable a) where
  abbrev after_ids : String
  after_ids = facet_separator <> a.id_hal_s

  -- The identifiers with what follows them.
  ids_apart : ids a <> after_ids ≡ a.form_id <> ("-" <> (a.person_id <> after_ids))
  ids_apart =
      append_assoc a.form_id ("-" <> a.person_id) after_ids
      ∙ ap (λ t. a.form_id <> t) (append_assoc "-" a.person_id after_ids)

  printed-is_contributor : is_contributor (printed a) ≡ true
  printed-is_contributor =
      let first =
        matched_part facet_separator a.name (ids a <> after_ids)
          (cut-before _ _ a.name (ids a <> after_ids) p.name_free) p.name_line in
      let second =
        ap (λ t. matched "-" (some t)) ids_apart
        ∙ matched_part "-" a.form_id (a.person_id <> after_ids)
            (cut-before _ _ a.form_id (a.person_id <> after_ids) p.form_id_free) p.form_id_line in
      let third =
        matched_part facet_separator a.person_id a.id_hal_s
          (cut-before _ _ a.person_id a.id_hal_s (
            IsFree-append facet_separator "-" a.person_id
              (IsFree-append facet_separator a.form_id ("-" <> a.person_id) p.ids_free)))
          p.person_id_line in
      ap (λ o. is_matched (matched facet_separator (matched "-" o))) first
      ∙ ap (λ o. is_matched (matched facet_separator o)) second
      ∙ ap is_matched third

  printed-split : split facet_separator (printed a) ≡ a.name ∷ ids a ∷ a.id_hal_s ∷ []
  printed-split =
      split-before _ _ a.name (ids a <> after_ids) p.name_free
      ∙ ap (λ parts. a.name ∷ parts)
          (split-before _ _ (ids a) a.id_hal_s p.ids_free
            ∙ ap (λ parts. ids a ∷ parts) (split-part _ _ a.id_hal_s p.id_hal_s_free))

  ids-split : split "-" (ids a) ≡ a.form_id ∷ a.person_id ∷ []
  ids-split =
      split-before _ _ a.form_id a.person_id p.form_id_free
      ∙ ap (λ parts. a.form_id ∷ parts) (split-part _ _ a.person_id p.person_id_free)

  pub parse_contributor-printed :
      parse_contributor (printed a) ≡ ok (a.name, a.form_id, a.person_id)
  unfolding parse_contributor
  parse_contributor-printed = rw (printed-is_contributor, printed-split, ids-split) refl

length-map : {A B : Type 0} (f : A → B) (xs : List A) → length (map f xs) ≡ length xs
length-map f [] = refl
length-map f (x ∷ xs) = ap suc (length-map f xs)

module _ (get_identifiers : Option (String → List Identifier)) where
  abbrev pub informations_of : ℕ → Author → ContributionInformations
  informations_of rank a =
      informations get_identifiers rank a.quality (some a.first_name) (some a.last_name)
        (a.name, a.form_id, a.person_id)

  -- The informations of the authors, with ranks from the given one on.
  abbrev pub all_informations : ℕ → List Author → List ContributionInformations
  all_informations rank [] = []
  all_informations rank (a ∷ authors) = informations_of rank a ∷ all_informations (suc rank) authors

  informations_from-authors :
      (rank : ℕ) (authors : List Author)
      → All IsPrintable authors
      → informations_from get_identifiers rank
          (map (λ a. a.quality) authors)
          (map printed authors)
          (somes (map (λ a. a.first_name) authors))
          (somes (map (λ a. a.last_name) authors))
        ≡ ok (all_informations rank authors)
  informations_from-authors rank [] p = refl
  informations_from-authors rank (a ∷ authors) p =
      rw
        (
          informations_from,
          parse_contributor-printed a p.0,
          informations_from-authors (suc rank) authors p.1,
        )
        refl

  pub contribution_informations-authors :
      (payload : Payload) (authors : List Author)
      → HasAuthors payload authors
      → All IsPrintable authors
      → contribution_informations get_identifiers payload ≡ ok (all_informations 0 authors)
  unfolding contribution_informations
  contribution_informations-authors payload authors has p =
      rw
        (
          has.contributors,
          has.qualities,
          has.first_names,
          has.last_names,
          length-map printed authors,
          length-map (λ a. a.quality) authors,
          length-map (λ a. a.first_name) authors,
          length-map (λ a. a.last_name) authors,
          path→eq (length authors) (length authors) refl,
        )
        (informations_from-authors 0 authors p)
