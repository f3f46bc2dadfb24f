-- ===== src/Organizations/Tests.antt =====
-- The organizations on samples.
use svp_harvester.Prelude.{String, none, some, [], ◌∷◌, ◌≡◌, refl, string_eq, nat_eq}
use svp_harvester.Prelude.Action.{ok, raised}
use svp_harvester.Harvesting.Converter.{other_error}
use svp_harvester.Tables.{add, interfere}
use svp_harvester.Organizations.{
  NewOrganization, Organization, Organizations, make, is_refused, get_or_create_organization,
  attempt_organization, create_organization, get_organization_by_identifiers,
  get_organization_by_source_identifier,
}
use svp_harvester.Organizations.Storing.{IsAnswered, get_or_create_organization-unmerged}
use svp_harvester.Organizations.Rows.{IsIn}
use svp_harvester.Organizations.Solvers.{HalStructure, HalAnswer, solve_organization, solve_hal}
use svp_harvester.Organizations.Solving.{
  IsUsableStructure, in_hal, of_source, get_or_create_organization-of_source,
}

abbrev lab_in_hal : HalStructure
lab_in_hal = record {
  name_s = some "Lab";
  type_s = some "laboratory";
  codes = ("idref_s", "026" ∷ []) ∷ ("docid", "5" ∷ []) ∷ [];
}

abbrev hal_sample : String → HalAnswer
hal_sample identifier = some (lab_in_hal ∷ [])

abbrev lab : NewOrganization
lab = record {
  source = some "hal";
  source_identifier = "5";
  name = some "Lab";
  kind = some "laboratory";
  identifiers = ("hal", "5") ∷ ("idref", "026") ∷ [];
}

lab_solved : solve_organization hal_sample "5" (of_source "5" "Lab" "hal") ≡ ok lab
unfolding solve_organization solve_hal string_eq
lab_solved = refl

abbrev no_organizations : Organizations
no_organizations = record { rows = []; next_id = 0; concurrent = [] }

lab_usable : IsUsableStructure lab_in_hal
unfolding string_eq
lab_usable = record {
  kind = "laboratory";
  type_s = "laboratory";
  typed = refl;
  known = refl;
  coded = (tt, (tt, (tt, (tt, tt))));
}

get_or_create_organization-of_source_example :
    IsAnswered (solve_organization hal_sample) "5" (of_source "5" "Lab" "hal") (
      get_or_create_organization
        (solve_organization hal_sample)
        "5"
        (of_source "5" "Lab" "hal")
        no_organizations)
get_or_create_organization-of_source_example =
    get_or_create_organization-of_source "5" "Lab" hal_sample "hal" no_organizations
      (in_hal lab_usable)

-- The same laboratory under its old number.
abbrev old_lab : Organization
old_lab = record {
  id = 3;
  source = some "hal";
  source_identifier = "4";
  name = some "Lab";
  kind = some "laboratory";
  identifiers = ("hal", "4") ∷ ("idref", "026") ∷ [];
}

abbrev with_old_lab : Organizations
with_old_lab = record { rows = old_lab ∷ []; next_id = 9; concurrent = [] }

lab_missing : get_organization_by_source_identifier "5" with_old_lab.rows ≡ none
unfolding get_organization_by_source_identifier string_eq
lab_missing = refl

lab_known : get_organization_by_identifiers lab.identifiers with_old_lab.rows ≡ some old_lab
unfolding get_organization_by_identifiers string_eq
lab_known = refl

get_or_create_organization-unmerged_example :
    let t = interfere make is_refused [] with_old_lab in
    (get_or_create_organization
        (solve_organization hal_sample)
        "5"
        (of_source "5" "Lab" "hal")
        with_old_lab
      ≡ (ok (make t.next_id lab), add make is_refused lab t))
    × IsIn old_lab (add make is_refused lab t).rows
    × IsIn (make t.next_id lab) (add make is_refused lab t).rows
get_or_create_organization-unmerged_example =
    get_or_create_organization-unmerged (solve_organization hal_sample) "5"
      (of_source "5" "Lab" "hal") with_old_lab lab old_lab lab_missing lab_solved refl lab_known
      refl

of_idref :
    (get_or_create_organization
      (solve_organization hal_sample)
      "5"
      (of_source "5" "Lab" "idref")
      no_organizations).0
    ≡ raised (other_error "NotImplementedError")
unfolding get_or_create_organization attempt_organization create_organization
    get_organization_by_source_identifier solve_organization string_eq
of_idref = refl
