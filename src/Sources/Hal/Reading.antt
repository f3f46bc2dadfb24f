-- ===== src/Sources/Hal/Reading.antt =====
-- A document of HAL with its contributors and their organizations, as the converter reads it.
use svp_harvester.Prelude.{
  Bool-cases, inl, inr, arith, String, false, Option, some, List, [], ◌∷◌, map, any, All, contains,
  NoDup, ◌≡◌, refl, sym, ap, ◌∙◌, string_eq, option_eq, pair_eq, if◌then◌else◌, path→eq, or_left,
  false≢true,
}
use svp_harvester.Prelude.Action.{ok}
use svp_harvester.Contributors.{Identifier}
use svp_harvester.Organizations.{OrganizationInformations}
use svp_harvester.Sources.Hal.{Payload, get, texts}
use svp_harvester.Sources.Hal.Contributions.{contribution_informations}
use svp_harvester.Sources.Hal.Structures.{organizations_from_contributor}
use svp_harvester.Sources.Hal.Authors.{
  Author, IsPrintable, HasAuthors, informations_of, all_informations,
  contribution_informations-authors,
}
use svp_harvester.Sources.Hal.Affiliations.{
  Entry, IsPrintableEntry, printed_entry, is_of, is_organization_of, collected,
  organizations_from-printed, collected-NoDup, collected-contains,
}

-- The organizations of the entries of a contributor, each once.
pub record AreOrganizationsOf (id_contributor : Option String) (entries : List Entry)
    (found : List OrganizationInformations) : Type 0 where
  pub distinct : NoDup found
  pub members :
      (x : OrganizationInformations)
      → contains found x ≡ any (is_organization_of id_contributor x) entries

organizations_from_contributor-entries :
    (payload : Payload) (entries : List Entry)
    → texts (get "authIdHasStructure_fs" payload) ≡ map printed_entry entries
    → All IsPrintableEntry entries
    → (id_contributor : Option String)
    → organizations_from_contributor payload id_contributor
      ≡ ok (collected id_contributor entries [])
unfolding organizations_from_contributor
organizations_from_contributor-entries payload entries has p id_contributor =
    rw has (organizations_from-printed id_contributor entries [] p)

-- Without an entry of its own, a contributor gets no organization.
collected-none :
    (id_contributor : Option String) (entries : List Entry)
    (organizations : List OrganizationInformations)
    → any (is_of id_contributor) entries ≡ false
    → collected id_contributor entries organizations ≡ organizations
collected-none id_contributor [] organizations h = refl
collected-none id_contributor (e ∷ entries) organizations h =
    elim (Bool-cases (is_of id_contributor e)) [
      | inl its ↦ absurd (false≢true (sym h ∙ or_left (any (is_of id_contributor) entries) its))
      | inr other ↦
          rw other (collected-none id_contributor entries organizations (ground (arith, h, other)))
    ]

module _ (get_identifiers : Option (String → List Identifier)) (payload : Payload)
    (authors : List Author) (entries : List Entry) where
  -- For a document whose fields list authors and, for some of them, organizations, written in HAL's
  -- format by parts that hold no separator and no end of a line: the informations of contributors
  -- are those of the authors in their order, with ranks from 0, names, roles and identifiers.
  -- A contributor gets, each once, the organizations of the entries with its source identifier as
  -- the person's identifier and no others; so an author without one, whose source identifier is that
  -- of the form, gets none unless the latter is the person's identifier in some entry.
  pub document-IsRead :
      HasAuthors payload authors
      → All IsPrintable authors
      → texts (get "authIdHasStructure_fs" payload) ≡ map printed_entry entries
      → All IsPrintableEntry entries
      → (contribution_informations get_identifiers payload
          ≡ ok (all_informations get_identifiers 0 authors))
        × ((id_contributor : Option String)
            → (found : List OrganizationInformations) × (organizations_from_contributor payload
                  id_contributor
                ≡ ok found)
              × AreOrganizationsOf id_contributor entries found)
        × ((a : Author)
            → a.person_id ≡ "0"
            → any (is_of (some a.form_id)) entries ≡ false
            → organizations_from_contributor payload
                (informations_of get_identifiers 0 a).identifier
              ≡ ok [])
  document-IsRead has p lists q = (
    contribution_informations-authors get_identifiers payload authors has p,
    λ id_contributor. (
      collected id_contributor entries [],
      organizations_from_contributor-entries payload entries lists q id_contributor,
      record {
        distinct = collected-NoDup id_contributor entries [] tt;
        members = collected-contains id_contributor entries [];
      },
    ),
    λ a zero_id missing.
        ap (λ i. organizations_from_contributor payload (some i))
          (ap (λ b. if b then a.form_id else a.person_id) (path→eq a.person_id "0" zero_id))
        ∙ organizations_from_contributor-entries payload entries lists q (some a.form_id)
        ∙ ap ok (collected-none (some a.form_id) entries [] missing),
  )
