-- ===== src/Sources/Hal/Tests.antt =====
-- The reading of a document of HAL on a sample.
use svp_harvester.Prelude.Splitting.{is_free-IsFree}
use svp_harvester.Prelude.{
  option_eq, pair_eq, map, Option, nat_eq, String, none, some, List, [], ◌∷◌, any, ◌≡◌, refl,
  string_eq, false,
}
use svp_harvester.Prelude.Action.{ok, raised}
use svp_harvester.Harvesting.Converter.{other_error}
use svp_harvester.Organizations.{OrganizationInformations}
use svp_harvester.Sources.Hal.{
  facet_separator, join_separator, get, texts, Payload, one, many, unexpected_format_exception,
  option_eq, Option, pair_eq, OrganizationInformations,
}
use svp_harvester.Sources.Hal.Contributions.{parse_contributor, contribution_informations}
use svp_harvester.Sources.Hal.Structures.{organizations_from_contributor}
use svp_harvester.Sources.Hal.Authors.{
  ids, informations_of, Author, IsPrintable, HasAuthors, all_informations, informations_of,
}
use svp_harvester.Sources.Hal.Affiliations.{
  auth, org, entry_ids, is_of, Entry, IsPrintableEntry, printed_entry, is_of,
}
use svp_harvester.Sources.Hal.Reading.{AreOrganizationsOf, document-IsRead}

abbrev ada : Author
ada = record {
  name = "Ada L_";
  form_id = "12";
  person_id = "77";
  id_hal_s = "ada-l";
  quality = "aut";
  first_name = "Ada";
  last_name = "L_";
}

abbrev bob : Author
bob = record {
  name = "Bob M.";
  form_id = "13";
  person_id = "0";
  id_hal_s = "";
  quality = "edt";
  first_name = "Bob";
  last_name = "M.";
}

abbrev authors : List Author
authors = ada ∷ bob ∷ []

abbrev ada_in_lab : Entry
ada_in_lab = record {
  form_id = "12";
  person_id = "77";
  name = "Ada L_";
  org_id = "5";
  org_name = "Lab";
}

abbrev bob_in_unit : Entry
bob_in_unit = record {
  form_id = "13";
  person_id = "0";
  name = "Bob M.";
  org_id = "6";
  org_name = "Unit";
}

abbrev entries : List Entry
entries = ada_in_lab ∷ bob_in_unit ∷ ada_in_lab ∷ []

abbrev document : Payload
document =
    ("halId_s", one "hal-1")
    ∷ (
      "authFullNameFormIDPersonIDIDHal_fs",
      many ("Ada L__FacetSep_12-77_FacetSep_ada-l" ∷ "Bob M._FacetSep_13-0_FacetSep_" ∷ []),
    )
    ∷ ("authQuality_s", many ("aut" ∷ "edt" ∷ []))
    ∷ ("authFirstName_s", many ("Ada" ∷ "Bob" ∷ []))
    ∷ ("authLastName_s", many ("L_" ∷ "M." ∷ []))
    ∷ (
      "authIdHasStructure_fs",
      many (
          "12-77_FacetSep_Ada L__JoinSep_5_FacetSep_Lab"
          ∷ "13-0_FacetSep_Bob M._JoinSep_6_FacetSep_Unit"
          ∷ "12-77_FacetSep_Ada L__JoinSep_5_FacetSep_Lab" ∷ []),
    )
    ∷ []

of_ada :
    organizations_from_contributor document (some "77")
    ≡ ok ((some "Lab", (some "5", some "hal")) ∷ [])
unfolding organizations_from_contributor string_eq nat_eq option_eq pair_eq
of_ada = refl

of_bob : organizations_from_contributor document (some "13") ≡ ok []
unfolding organizations_from_contributor string_eq nat_eq option_eq pair_eq
of_bob = refl

not_a_contributor : parse_contributor "Ada 12-77" ≡ raised unexpected_format_exception
unfolding parse_contributor nat_eq
not_a_contributor = refl

hyphens : parse_contributor "Ada_FacetSep_12-77-1_FacetSep_" ≡ raised (other_error "ValueError")
unfolding parse_contributor nat_eq
hyphens = refl

document-HasAuthors : HasAuthors document authors
unfolding string_eq
document-HasAuthors = record {
  contributors = refl;
  qualities = refl;
  first_names = refl;
  last_names = refl;
}

ada-IsPrintable : IsPrintable ada
unfolding nat_eq
ada-IsPrintable = record {
  name_free = is_free-IsFree facet_separator ada.name refl;
  ids_free = is_free-IsFree facet_separator (ids ada) refl;
  id_hal_s_free = is_free-IsFree facet_separator ada.id_hal_s refl;
  form_id_free = is_free-IsFree "-" ada.form_id refl;
  person_id_free = is_free-IsFree "-" ada.person_id refl;
  name_line = refl;
  form_id_line = refl;
  person_id_line = refl;
}

bob-IsPrintable : IsPrintable bob
unfolding nat_eq
bob-IsPrintable = record {
  name_free = is_free-IsFree facet_separator bob.name refl;
  ids_free = is_free-IsFree facet_separator (ids bob) refl;
  id_hal_s_free = is_free-IsFree facet_separator bob.id_hal_s refl;
  form_id_free = is_free-IsFree "-" bob.form_id refl;
  person_id_free = is_free-IsFree "-" bob.person_id refl;
  name_line = refl;
  form_id_line = refl;
  person_id_line = refl;
}

ada_in_lab-IsPrintable : IsPrintableEntry ada_in_lab
unfolding nat_eq
ada_in_lab-IsPrintable = record {
  auth_free = is_free-IsFree join_separator (auth ada_in_lab) refl;
  org_free = is_free-IsFree join_separator (org ada_in_lab) refl;
  ids_free = is_free-IsFree facet_separator (entry_ids ada_in_lab) refl;
  name_free = is_free-IsFree facet_separator ada_in_lab.name refl;
  form_id_free = is_free-IsFree "-" ada_in_lab.form_id refl;
  person_id_free = is_free-IsFree "-" ada_in_lab.person_id refl;
  org_id_free = is_free-IsFree facet_separator ada_in_lab.org_id refl;
  org_name_free = is_free-IsFree facet_separator ada_in_lab.org_name refl;
}

bob_in_unit-IsPrintable : IsPrintableEntry bob_in_unit
unfolding nat_eq
bob_in_unit-IsPrintable = record {
  auth_free = is_free-IsFree join_separator (auth bob_in_unit) refl;
  org_free = is_free-IsFree join_separator (org bob_in_unit) refl;
  ids_free = is_free-IsFree facet_separator (entry_ids bob_in_unit) refl;
  name_free = is_free-IsFree facet_separator bob_in_unit.name refl;
  form_id_free = is_free-IsFree "-" bob_in_unit.form_id refl;
  person_id_free = is_free-IsFree "-" bob_in_unit.person_id refl;
  org_id_free = is_free-IsFree facet_separator bob_in_unit.org_id refl;
  org_name_free = is_free-IsFree facet_separator bob_in_unit.org_name refl;
}

entries_field : texts (get "authIdHasStructure_fs" document) ≡ map printed_entry entries
unfolding string_eq
entries_field = refl

document-IsRead_example :
    (contribution_informations none document ≡ ok (all_informations none 0 authors))
    × ((id_contributor : Option String)
        → (found : List OrganizationInformations) × (organizations_from_contributor document
              id_contributor
            ≡ ok found)
          × AreOrganizationsOf id_contributor entries found)
    × ((a : Author)
        → a.person_id ≡ "0"
        → any (is_of (some a.form_id)) entries ≡ false
        → organizations_from_contributor document (informations_of none 0 a).identifier ≡ ok [])
document-IsRead_example =
    document-IsRead none document authors entries document-HasAuthors
      (ada-IsPrintable, (bob-IsPrintable, tt)) entries_field
      (ada_in_lab-IsPrintable, (bob_in_unit-IsPrintable, (ada_in_lab-IsPrintable, tt)))
