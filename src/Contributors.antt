-- ===== src/Contributors.antt =====
-- The contributors of a reference: app/db/models/contributor.py,
-- app/db/models/contributor_identifier.py, app/db/daos/contributor_dao.py and the part of
-- app/harvesters/abstract_references_converter.py that keeps them up to date.
pub mod Roles
pub mod Contributions
pub mod Names
pub mod ExternalIdentifiers
pub mod Sharing
pub mod Creation
mod Tests
use text.Mathlib.Text.{starts_with}
use svp_harvester.Prelude.{
  ℕ, String, Bool, not, ◌&&◌, ◌||◌, Option, none, some, List, [], ◌∷◌, ◌++◌, filter, map, find?,
  contains, ◌==◌, string_eq, option_eq, pair_eq, nat_eq, if◌then◌else◌, ◌<>◌,
}
use svp_harvester.Prelude.Action.{Outcome, ok, raised, Action}
use svp_harvester.Harvesting.Model.{Exception}
use svp_harvester.Harvesting.Converter.{other_error}
use svp_harvester.Tables.{Store, one_or_none, refuses, get_or_create}

-- A first name and a last name.
abbrev pub StructuredName : Type 0
StructuredName = Option String × Option String

-- A type and a value.
abbrev pub Identifier : Type 0
Identifier = String × String

pub record Contributor : Type 0 where
  pub id : ℕ
  pub source : String
  pub source_identifier : Option String
  pub name : Option String
  pub first_name : Option String
  pub last_name : Option String
  pub name_variants : List (Option String)
  pub structured_name_variants : List StructuredName
  pub identifiers : List Identifier

-- The arguments of `Contributor(...)`.
pub record NewContributor : Type 0 where
  pub source : String
  pub source_identifier : Option String
  pub name : Option String
  pub first_name : Option String
  pub last_name : Option String

abbrev pub Contributors : Type 0
Contributors = Store NewContributor Contributor

abbrev pub make : ℕ → NewContributor → Contributor
make id new = record {
  id = id;
  source = new.source;
  source_identifier = new.source_identifier;
  name = new.name;
  first_name = new.first_name;
  last_name = new.last_name;
  name_variants = [];
  structured_name_variants = [];
  identifiers = [];
}

-- The two partial unique indexes: the source identifier within a source, or the name where there
-- is no source identifier.
abbrev pub has_key : String → Option String → Option String → Contributor → Bool
has_key source (some identifier) name row =
    row.source == source && row.source_identifier == some identifier
has_key source none name row =
    row.source == source && (row.name == name && row.source_identifier == none)

abbrev pub has_key_of : NewContributor → Contributor → Bool
has_key_of new = has_key new.source new.source_identifier new.name

-- The name may not be null.
abbrev pub is_named : NewContributor → Bool
is_named new = not (new.name == none)

-- `get_by_source_and_identifier`
unfoldable pub get_by_source_and_identifier :
    String → String → List Contributor → Outcome Exception (Option Contributor)
get_by_source_and_identifier source source_identifier rows =
    one_or_none
      (filter (λ row. row.source == source && row.source_identifier == some source_identifier) rows)

-- `get_by_source_and_name`
unfoldable pub get_by_source_and_name :
    String → Option String → List Contributor → Outcome Exception (Option Contributor)
get_by_source_and_name source name rows = one_or_none (
    filter (λ row. row.source == source && (row.name == name && row.source_identifier == none))
      rows)

abbrev pub find_by_key :
    String
    → Option String
    → Option String
    → List Contributor
    → Outcome Exception (Option Contributor)
find_by_key source (some identifier) name = get_by_source_and_identifier source identifier
find_by_key source none name = get_by_source_and_name source name

abbrev pub find_contributor :
    NewContributor → List Contributor → Outcome Exception (Option Contributor)
find_contributor new = find_by_key new.source new.source_identifier new.name

abbrev pub create_contributor : NewContributor → Action Contributors Exception Contributor
create_contributor = get_or_create make (refuses has_key_of is_named) find_contributor

-- `_get_or_create_contributor_by_identifier`
unfoldable pub get_or_create_contributor_by_identifier :
    String
    → String
    → Option String
    → Option String
    → Option String
    → Action Contributors Exception Contributor
get_or_create_contributor_by_identifier source source_identifier name first_name last_name =
    create_contributor record {
      source = source;
      source_identifier = some source_identifier;
      name = name;
      first_name = first_name;
      last_name = last_name;
    }

-- `_get_or_create_contributor_by_name`
unfoldable pub get_or_create_contributor_by_name :
    String → Option String → Action Contributors Exception Contributor
get_or_create_contributor_by_name source name = create_contributor record {
  source = source;
  source_identifier = none;
  name = name;
  first_name = none;
  last_name = none;
}

-- `_update_contributor_name`
unfoldable pub update_contributor_name : Contributor → Option String → Contributor
update_contributor_name c name = if c.name == name then c else record c {
  name = name;
  name_variants =
      if contains c.name_variants c.name then c.name_variants else c.name_variants ++ c.name ∷ [];
}

abbrev pub structured_name : Contributor → StructuredName
structured_name c = (c.first_name, c.last_name)

-- The old structured name joins the variants unless it is empty or among them.
abbrev pub keep_structured_name : Contributor → List StructuredName
keep_structured_name c =
    if (not (c.first_name == none) || not (c.last_name == none))
      && not (contains c.structured_name_variants (structured_name c))
    then c.structured_name_variants ++ structured_name c ∷ []
    else c.structured_name_variants

-- `_update_contributor_structured_name`
unfoldable pub update_contributor_structured_name :
    Contributor → Option String → Option String → Contributor
update_contributor_structured_name c first_name last_name =
    if c.first_name == first_name && c.last_name == last_name then c else record c {
      first_name = first_name;
      last_name = last_name;
      structured_name_variants = keep_structured_name c;
    }

-- `ContributorIdentifier.IdentifierType`
abbrev pub valid_external_identifier_types : List String
valid_external_identifier_types =
    "orcid" ∷ "open_alex" ∷ "idhal_i" ∷ "idhal_s" ∷ "idref" ∷ "scopus" ∷ "google_scholar" ∷ "viaf"
    ∷ "isni" ∷ []

-- `_validate_orcid_value`
unfoldable pub validate_orcid_value : String → String → String
validate_orcid_value type value =
    if type == "orcid" && not (starts_with value "https://orcid.org/")
    then "https://orcid.org/" <> value
    else value

abbrev pub stored_identifier : Identifier → Identifier
stored_identifier identifier = (identifier.0, validate_orcid_value identifier.0 identifier.1)

-- A Python set of the elements. Its order is left open by Python.
abbrev pub distinct : List Identifier → List Identifier
distinct [] = []
distinct (x ∷ xs) = let rest = distinct xs in if contains rest x then rest else x ∷ rest

abbrev pub with_valid_type : List Identifier → List Identifier
with_valid_type = filter (λ identifier. contains valid_external_identifier_types identifier.0)

-- The identifiers of a contributor after `update_external_identifiers`: those that are not given
-- any more are deleted, and those that are new are added.
unfoldable pub replaced_identifiers : List Identifier → List Identifier → List Identifier
replaced_identifiers existing ext_identifiers =
    let given = with_valid_type ext_identifiers in
    filter (contains given) existing
    ++ map stored_identifier (filter (λ i. not (contains existing i)) (distinct given))

-- `ContributorDAO.get_by_id`
unfoldable pub get_by_id : ℕ → List Contributor → Option Contributor
get_by_id id rows = find? (λ row. row.id == id) rows

abbrev pub set_identifiers : ℕ → List Identifier → List Contributor → List Contributor
set_identifiers id identifiers =
    map (λ row. if row.id == id then record row { identifiers = identifiers } else row)

abbrev pub given_identifiers : Option (List Identifier) → List Identifier
given_identifiers none = []
given_identifiers (some identifiers) = identifiers

abbrev pub replace_identifiers :
    Contributor → Option (List Identifier) → Contributors → Contributors
replace_identifiers c ext_identifiers s =
    let identifiers = replaced_identifiers c.identifiers (given_identifiers ext_identifiers) in
    record s { rows = set_identifiers c.id identifiers s.rows }

-- `ContributorDAO.update_external_identifiers`
unfoldable pub update_external_identifiers :
    ℕ → Option (List Identifier) → Action Contributors Exception (Unit {0})
update_external_identifiers id ext_identifiers s = elim (get_by_id id s.rows) [
  | none ↦ (raised (other_error "'NoneType' object has no attribute 'identifiers'"), s)
  | some contributor ↦ (ok tt, replace_identifiers contributor ext_identifiers s)
]
