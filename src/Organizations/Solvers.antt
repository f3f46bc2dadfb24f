-- ===== src/Organizations/Solvers.antt =====
-- `OrganizationFactory.solve` with the solvers of app/services/organizations that it calls. What HAL
use svp_harvester.Prelude.{
  String, Option, none, some, List, [], ◌∷◌, ◌++◌, contains, ◌==◌, string_eq, if◌then◌else◌,
}
use svp_harvester.Prelude.Action.{Outcome, ok, raised}
use svp_harvester.Harvesting.Converter.{other_error}
use svp_harvester.Organizations.{
  OrganizationIdentifier, NewOrganization, OrganizationInformations, OrganizationError,
  dereferencing_error, failure,
}

-- answers is a parameter. The solvers look no identifiers up in other sources, since their lists for
-- that are empty; solve_identities, which they would call, is left out.

-- A structure in HAL's answer, with the lists of its other fields.
pub record HalStructure : Type 0 where
  pub name_s : Option String
  pub type_s : Option String
  pub codes : List (String × List String)

-- The documents of HAL's answer, or nothing if it fails or comes too late.
abbrev pub HalAnswer : Type 0
HalAnswer = Option (List HalStructure)

abbrev pub Solution : Type 0
Solution = Outcome OrganizationError NewOrganization

abbrev pub error : String → OrganizationError
error name = failure (other_error name)

-- `IDENTITY_SAVE`
abbrev pub identity_save : List (String × String)
identity_save =
    ("isni_s", "isni") ∷ ("rnsr_s", "rnsr") ∷ ("idref_s", "idref") ∷ ("ror_s", "ror") ∷ []

-- `TYPE_MAPPING`
abbrev pub type_mapping : List (String × String)
type_mapping =
    ("institution", "institution")
    ∷ ("laboratory", "laboratory")
    ∷ ("regroupinstitution", "institution_group")
    ∷ ("regrouplaboratory", "laboratory_group")
    ∷ ("researchteam", "research_team")
    ∷ ("department", "research_team_group")
    ∷ []

-- `dict.get`
abbrev pub item {ℓ} : {A : Type ℓ} → String → List (String × A) → Option A
item key [] = none
item key (entry ∷ entries) = if entry.0 == key then some entry.1 else item key entries

-- A code of the structure joins the identifiers, and its source those that were seen.
abbrev pub Saved : Type 0
Saved = Outcome OrganizationError (List OrganizationIdentifier × List String)

abbrev pub save_code :
    String → List OrganizationIdentifier × List String → Option (List String) → Saved
save_code source (identifiers, seen) none = ok (identifiers, seen)
save_code source (identifiers, seen) (some []) = raised (error "IndexError")
save_code source (identifiers, seen) (some (code ∷ codes)) =
    ok (identifiers ++ (source, code) ∷ [], seen ++ source ∷ [])

-- The body of the loop over `IDENTITY_SAVE`.
unfoldable pub save_identity :
    HalStructure → String × String → List OrganizationIdentifier × List String → Saved
save_identity structure (key, source) (identifiers, seen) =
    if contains seen source
    then ok (identifiers, seen)
    else save_code source (identifiers, seen) (item key structure.codes)

unfoldable pub save_identities :
    HalStructure → List (String × String) → List OrganizationIdentifier × List String → Saved
unfolding save_identity
save_identities structure [] saved = ok saved
save_identities structure (entry ∷ entries) saved = elim (save_identity structure entry saved) [
  | raised e ↦ raised e
  | ok further ↦ save_identities structure entries further
]

abbrev pub with_identities : String → String → String → Saved → Solution
with_identities identifier name kind (raised e) = raised e
with_identities identifier name kind (ok saved) = ok (record {
  source = some "hal";
  source_identifier = identifier;
  name = some name;
  kind = some kind;
  identifiers = ("hal", identifier) ∷ saved.0;
})

abbrev pub with_type : String → String → HalStructure → Option String → Solution
with_type identifier name structure none = raised (error "KeyError")
with_type identifier name structure (some kind) =
    with_identities identifier name kind (save_identities structure identity_save ([], "hal" ∷ []))

abbrev pub with_type_s : String → String → HalStructure → Option String → Solution
with_type_s identifier name structure none = raised (error "KeyError")
with_type_s identifier name structure (some type_s) =
    with_type identifier name structure (item type_s type_mapping)

abbrev pub with_name : String → HalStructure → Option String → Solution
with_name identifier structure none = raised dereferencing_error
with_name identifier structure (some name) =
    if name == ""
    then raised dereferencing_error
    else with_type_s identifier name structure structure.type_s

-- `HalOrganizationSolver.solve`
unfoldable pub solve_hal : String → HalAnswer → Solution
unfolding save_identities
solve_hal identifier none = raised dereferencing_error
solve_hal identifier (some []) = raised (error "IndexError")
solve_hal identifier (some (structure ∷ structures)) =
    with_name identifier structure structure.name_s

-- `ScopusOrganizationSolver.solve`
unfoldable pub solve_scopus : String → OrganizationInformations → Solution
solve_scopus identifier info = ok (record {
  source = some "scopus";
  source_identifier = identifier;
  name = info.0;
  kind = none;
  identifiers = ("scopus", identifier) ∷ [];
})

-- The solver that `_create_solver` makes solves the organization.
abbrev pub solve_from : Option String → String → HalAnswer → OrganizationInformations → Solution
solve_from none identifier answer info = raised (error "ValueError")
solve_from (some source) identifier answer info =
    if source == "hal"
    then solve_hal identifier answer
    else if source == "idref"
    then raised (error "NotImplementedError")
    else if source == "ror"
    then raised (error "NotImplementedError")
    else if source == "scopus"
    then solve_scopus identifier info
    else raised (error "ValueError")

-- `OrganizationFactory.solve`, by what HAL answers for an identifier.
unfoldable pub solve_organization :
    (String → HalAnswer) → String → OrganizationInformations → Solution
unfolding solve_hal solve_scopus
solve_organization hal_answer identifier info =
    solve_from (info.1).1 identifier (hal_answer identifier) info
