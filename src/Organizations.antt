-- ===== src/Organizations.antt =====
-- Organizations: `_organizations` and `_get_or_create_organization_by_identifier` of
use svp_harvester.Prelude.{
  ℕ, String, Bool, true, false, ◌&&◌, Option, none, some, List, [], ◌∷◌, ◌++◌, map, filter, any,
  contains, length, ◌==◌, string_eq, nat_eq, if◌then◌else◌,
}
use svp_harvester.Prelude.Action.{pure, raise, ◌>>=◌, Outcome, ok, raised, Action}
use svp_harvester.Harvesting.Model.{Exception}
use svp_harvester.Harvesting.Converter.{other_error}
use svp_harvester.Tables.{Store, first, refuses, commit, interfere}
-- app/harvesters/abstract_references_converter.py, with app/db/daos/organization_dao.py and
-- merge_organization.py of app/services/organizations. What a solver answers is a parameter.
pub mod Rows
pub mod Solvers
pub mod Solving
mod Tests
pub mod Storing

-- `OrganizationInformations`: name, identifier and source.
abbrev pub OrganizationInformations : Type 0
OrganizationInformations = Option String × (Option String × Option String)

-- `OrganizationIdentifier`: type and value.
abbrev pub OrganizationIdentifier : Type 0
OrganizationIdentifier = String × String

pub record NewOrganization : Type 0 where
  pub source : Option String
  pub source_identifier : String
  pub name : Option String
  pub kind : Option String
  pub identifiers : List OrganizationIdentifier

pub record Organization : Type 0 where
  pub id : ℕ
  pub source : Option String
  pub source_identifier : String
  pub name : Option String
  pub kind : Option String
  pub identifiers : List OrganizationIdentifier

abbrev pub Organizations : Type 0
Organizations = Store NewOrganization Organization

abbrev pub make : ℕ → NewOrganization → Organization
make id new = record {
  id = id;
  source = new.source;
  source_identifier = new.source_identifier;
  name = new.name;
  kind = new.kind;
  identifiers = new.identifiers;
}

abbrev is_given : Option String → Bool
is_given none = false
is_given (some text) = true

-- Source and name may not be null; no column is unique.
abbrev pub is_refused : NewOrganization → List Organization → Bool
is_refused = refuses (λ new row. false) (λ new. is_given new.source && is_given new.name)

-- `get_organization_by_source_identifier`
unfoldable pub get_organization_by_source_identifier :
    String → List Organization → Option Organization
get_organization_by_source_identifier identifier rows =
    first (filter (λ row. row.source_identifier == identifier) rows)

-- The type is one of the types and the value one of the values.
abbrev pub has_any_of : List OrganizationIdentifier → Organization → Bool
has_any_of identifiers row =
    any
      (λ own.
        contains (map (λ i. i.0) identifiers) own.0 && contains (map (λ i. i.1) identifiers) own.1)
      row.identifiers

-- `get_organization_by_identifiers`
unfoldable pub get_organization_by_identifiers :
    List OrganizationIdentifier → List Organization → Option Organization
get_organization_by_identifiers identifiers rows = first (filter (has_any_of identifiers) rows)

-- `merge_organization`. The identifiers are objects, so the set that is made of them drops none.
abbrev pub merge_organization : Organization → NewOrganization → Organization
merge_organization same new = record same { identifiers = same.identifiers ++ new.identifiers }

-- A changed row is written back.
abbrev pub update_row : Organization → List Organization → List Organization
update_row changed [] = []
update_row changed (row ∷ rows) =
    (if row.id == changed.id then changed else row) ∷ update_row changed rows

pub data OrganizationError : Type 0 where
  dereferencing_error : OrganizationError
  failure : Exception → OrganizationError

abbrev pub Create : Type 0
Create = Action Organizations Exception Organization

-- `session.add` and `session.commit`; `retry` is what an `IntegrityError` leads to.
unfoldable pub add_organization : Create → NewOrganization → Create
add_organization retry new s =
    let r = commit make is_refused new s in
    elim (r.0) [ some row ↦ (ok row, r.1) | none ↦ retry r.1 ]

-- The commit with a merged organization. The inserts of other processes come before it.
unfoldable pub merge_and_commit : Organization → NewOrganization → Create
merge_and_commit same new s =
    let t = interfere make is_refused s.concurrent s in
    let merged = merge_organization same new in
    (ok merged, record t { rows = update_row merged t.rows })

abbrev pub add_or_merge : Create → NewOrganization → Option Organization → Create
add_or_merge retry new none = add_organization retry new
add_or_merge retry new (some same) =
    if length same.identifiers == length new.identifiers
    then add_organization retry new
    else merge_and_commit same new

abbrev pub without_solution : String → OrganizationInformations → NewOrganization
without_solution identifier info = record {
  source = (info.1).1;
  source_identifier = identifier;
  name = info.0;
  kind = none;
  identifiers = [];
}

unfoldable pub create_organization :
    Create → String → OrganizationInformations → Outcome OrganizationError NewOrganization → Create
create_organization retry identifier info (ok new) s =
    add_or_merge retry new (get_organization_by_identifiers new.identifiers s.rows) s
create_organization retry identifier info (raised dereferencing_error) s =
    add_organization retry (without_solution identifier info) s
create_organization retry identifier info (raised (failure e)) s = (raised e, s)

abbrev pub violated_twice : Create
violated_twice s = (raised (other_error "violation cannot occur twice"), s)

-- What `OrganizationFactory.solve` answers, for the identifier and the informations of an organization.
module _
    (solve : String → OrganizationInformations → Outcome OrganizationError NewOrganization) where
  unfoldable pub attempt_organization : Create → String → OrganizationInformations → Create
  attempt_organization retry identifier info s =
      elim (get_organization_by_source_identifier identifier s.rows) [
        | some row ↦ (ok row, s)
        | none ↦ create_organization retry identifier info (solve identifier info) s
      ]

  -- `_get_or_create_organization_by_identifier`
  unfoldable pub get_or_create_organization : String → OrganizationInformations → Create
  get_or_create_organization identifier info =
      attempt_organization (attempt_organization violated_twice identifier info) identifier info

  -- `organizations_identifiers_cache`
  abbrev pub Cache : Type 0
  Cache = List (String × Organization)

  abbrev pub cached_organization : String → Cache → Option Organization
  cached_organization identifier [] = none
  cached_organization identifier (entry ∷ entries) =
      if entry.0 == identifier then some entry.1 else cached_organization identifier entries

  abbrev pub organization_or_cached :
      String
      → OrganizationInformations
      → Cache
      → Option Organization
      → Action Organizations Exception (Organization × Cache)
  organization_or_cached identifier info cache (some row) = pure (row, cache)
  organization_or_cached identifier info cache none = do
    row ← get_or_create_organization identifier info
    pure (row, (identifier, row) ∷ cache)

  -- The body of the loop.
  abbrev pub one_organization :
      Option String
      → OrganizationInformations
      → Cache
      → Action Organizations Exception (Organization × Cache)
  one_organization none info cache = raise (other_error "No identifier provided for organization")
  one_organization (some identifier) info cache =
      organization_or_cached identifier info cache (cached_organization identifier cache)

  unfoldable pub organizations_with :
      List OrganizationInformations → Cache → Action Organizations Exception (List Organization)
  organizations_with [] cache = pure []
  organizations_with (info ∷ infos) cache = do
    found ← one_organization (info.1).0 info cache
    rest ← organizations_with infos found.1
    pure (found.0 ∷ rest)

  -- `_organizations`
  unfoldable pub organizations :
      List OrganizationInformations → Action Organizations Exception (List Organization)
  unfolding organizations_with
  organizations infos = organizations_with infos []
