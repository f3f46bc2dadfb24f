-- ===== src/Sources/Hal/Affiliations.antt =====
-- Which organizations a contributor of a document of HAL gets.
use Prim.Native.Char.{Char}
use mathlib.Core.Bool.{or-true, or-false, or_assoc}
use svp_harvester.Prelude.{
  inl, inr, contains-append, eq→path, Bool-cases, String, ◌<>◌, Bool, false, ◌&&◌, ◌||◌, Option,
  none, some, List, [], ◌∷◌, map, any, All, contains, NoDup, joined-NoDup, ◌≡◌, refl, sym, ap, ◌∙◌,
  ◌==◌, string_eq, option_eq, pair_eq, if◌then◌else◌,
}
use svp_harvester.Prelude.Action.{ok}
use svp_harvester.Prelude.Splitting.{IsFree, split, split-part, split-before}
use svp_harvester.Organizations.{OrganizationInformations}
use svp_harvester.Sources.Hal.{facet_separator, join_separator, two}
use svp_harvester.Sources.Hal.Structures.{organization, organization_of, add_to, organizations_from}

-- An author with one of the organizations, as `authIdHasStructure_fs` lists them.
pub record Entry : Type 0 where
  pub form_id : String
  pub person_id : String
  pub name : String
  pub org_id : String
  pub org_name : String

abbrev pub entry_ids : Entry → String
entry_ids e = e.form_id <> ("-" <> e.person_id)

abbrev pub auth : Entry → String
auth e = entry_ids e <> (facet_separator <> e.name)

abbrev pub org : Entry → String
org e = e.org_id <> (facet_separator <> e.org_name)

abbrev pub printed_entry : Entry → String
printed_entry e = auth e <> (join_separator <> org e)

-- The separators do not occur in the parts.
pub record IsPrintableEntry (e : Entry) : Type 0 where
  pub auth_free : IsFree join_separator (auth e)
  pub org_free : IsFree join_separator (org e)
  pub ids_free : IsFree facet_separator (entry_ids e)
  pub name_free : IsFree facet_separator e.name
  pub form_id_free : IsFree "-" e.form_id
  pub person_id_free : IsFree "-" e.person_id
  pub org_id_free : IsFree facet_separator e.org_id
  pub org_name_free : IsFree facet_separator e.org_name

abbrev pub organization_in : Entry → OrganizationInformations
organization_in e = (some e.org_name, (some e.org_id, some "hal"))

abbrev pub is_of : Option String → Entry → Bool
is_of id_contributor e = some e.person_id == id_contributor

two_parts :
    (c : Char) (rest part other : String)
    → IsFree (String.◌∷◌ c rest) part
    → IsFree (String.◌∷◌ c rest) other
    → two (split (String.◌∷◌ c rest) (part <> (String.◌∷◌ c rest <> other))) ≡ ok (part, other)
two_parts c rest part other p q =
    ap two
      (split-before c rest part other p ∙ ap (λ parts. part ∷ parts) (split-part c rest other q))

module _ (id_contributor : Option String) where
  abbrev found : Entry → Option OrganizationInformations
  found e = if is_of id_contributor e then some (organization_in e) else none

  organization_of-printed :
      (e : Entry)
      → IsPrintableEntry e
      → organization_of id_contributor (printed_entry e) ≡ ok (found e)
  unfolding organization_of
  organization_of-printed e p =
      let last =
        ap organization (two_parts _ _ e.org_id e.org_name p.org_id_free p.org_name_free) in
      rw
        (
          two_parts _ _ (auth e) (org e) p.auth_free p.org_free,
          two_parts _ _ (entry_ids e) e.name p.ids_free p.name_free,
          two_parts _ _ e.form_id e.person_id p.form_id_free p.person_id_free,
        )
        (elim (Bool-cases (is_of id_contributor e)) [
          | inl its ↦ rw its last
          | inr other ↦ rw other refl
        ])

  abbrev pub collected : List Entry → List OrganizationInformations → List OrganizationInformations
  collected [] organizations = organizations
  collected (e ∷ entries) organizations = collected entries (add_to organizations (found e))

  pub organizations_from-printed :
      (entries : List Entry) (organizations : List OrganizationInformations)
      → All IsPrintableEntry entries
      → organizations_from id_contributor (map printed_entry entries) organizations
        ≡ ok (collected entries organizations)
  organizations_from-printed [] organizations p = refl
  organizations_from-printed (e ∷ entries) organizations p =
      rw (organizations_from, organization_of-printed e p.0)
        (organizations_from-printed entries (add_to organizations (found e)) p.1)

  add_to-NoDup :
      (organizations : List OrganizationInformations) (o : Option OrganizationInformations)
      → NoDup organizations
      → NoDup (add_to organizations o)
  add_to-NoDup organizations none d = d
  add_to-NoDup organizations (some o) d =
      joined-NoDup organizations o (contains organizations o) refl d

  pub collected-NoDup :
      (entries : List Entry) (organizations : List OrganizationInformations)
      → NoDup organizations
      → NoDup (collected entries organizations)
  collected-NoDup [] organizations d = d
  collected-NoDup (e ∷ entries) organizations d =
      collected-NoDup entries (add_to organizations (found e))
        (add_to-NoDup organizations (found e) d)

  abbrev is_it : OrganizationInformations → Option OrganizationInformations → Bool
  is_it x none = false
  is_it x (some o) = x == o

  add_to-contains :
      (organizations : List OrganizationInformations) (o : Option OrganizationInformations)
      (x : OrganizationInformations)
      → contains (add_to organizations o) x ≡ contains organizations x || is_it x o
  add_to-contains organizations none x = sym (or-false (contains organizations x))
  add_to-contains organizations (some o) x = elim (Bool-cases (contains organizations o)) [
    | inl hit ↦ rw hit (elim (Bool-cases (x == o)) [
      | inl same ↦ rw same (
          ap (λ y. contains organizations y) (eq→path x o same)
          ∙ hit
          ∙ sym (or-true (contains organizations x)))
      | inr other ↦ rw other (sym (or-false (contains organizations x)))
    ])
    | inr miss ↦ rw miss (
        contains-append organizations (o ∷ []) x
        ∙ ap (λ b. contains organizations x || b) (or-false (x == o)))
  ]

  -- Whether an organization is that of an entry of the contributor.
  abbrev pub is_organization_of : OrganizationInformations → Entry → Bool
  is_organization_of x e = is_of id_contributor e && (x == organization_in e)

  found-is_it :
      (e : Entry) (x : OrganizationInformations) → is_it x (found e) ≡ is_organization_of x e
  found-is_it e x = elim (Bool-cases (is_of id_contributor e)) [
    | inl its ↦ rw its refl
    | inr other ↦ rw other refl
  ]

  pub collected-contains :
      (entries : List Entry) (organizations : List OrganizationInformations)
      (x : OrganizationInformations)
      → contains (collected entries organizations) x
        ≡ contains organizations x || any (is_organization_of x) entries
  collected-contains [] organizations x = sym (or-false (contains organizations x))
  collected-contains (e ∷ entries) organizations x =
      collected-contains entries (add_to organizations (found e)) x
      ∙ ap (λ b. b || any (is_organization_of x) entries)
          (add_to-contains organizations (found e) x
            ∙ ap (λ b. contains organizations x || b) (found-is_it e x))
      ∙ or_assoc (contains organizations x) (is_organization_of x e)
          (any (is_organization_of x) entries)
