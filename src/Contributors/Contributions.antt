-- ===== src/Contributors/Contributions.antt =====
-- `_contributions` of app/harvesters/abstract_references_converter.py: the contributors of one
-- reference, each resolved once.
use svp_harvester.Prelude.{
  ℕ, String, Option, none, some, List, [], ◌∷◌, ◌==◌, string_eq, if◌then◌else◌,
}
use svp_harvester.Prelude.Action.{Outcome, ok, raised, Action, pure, lift, ◌>>=◌, ◌>>◌}
use svp_harvester.Harvesting.Model.{Exception}
use svp_harvester.Harvesting.Converter.{other_error}
use svp_harvester.Contributors.{
  Identifier, Contributor, Contributors, get_or_create_contributor_by_identifier,
  get_or_create_contributor_by_name, update_contributor_name, update_contributor_structured_name,
  update_external_identifiers,
}
use svp_harvester.Contributors.Roles.{validate_role}

pub record ContributionInformations : Type 0 where
  pub role : String
  pub rank : Option ℕ
  pub name : Option String
  pub first_name : Option String
  pub last_name : Option String
  pub identifier : Option String
  pub ext_identifiers : Option (List Identifier)

pub record Contribution : Type 0 where
  pub contributor : Contributor
  pub role : String
  pub rank : Option ℕ

-- `contributors_identifiers_cache` and `contributors_names_cache`
pub record Caches : Type 0 where
  pub identifiers : List (String × Contributor)
  pub names : List (String × Contributor)

-- What a contributor is known by in the caches.
pub data Key : Type 0 where
  by_identifier : String → Key
  by_name : String → Key

-- The assertion at the head of the loop's body, and the choice of the cache.
unfoldable pub key_of : ContributionInformations → Outcome Exception Key
key_of info = elim info.identifier [
  | some identifier ↦ ok (by_identifier identifier)
  | none ↦ elim info.name [
    | some name ↦ ok (by_name name)
    | none ↦ raised (other_error "No identifier or name provided for contributor")
  ]
]

abbrev pub lookup : String → List (String × Contributor) → Option Contributor
lookup key [] = none
lookup key (entry ∷ entries) = if entry.0 == key then some entry.1 else lookup key entries

unfoldable pub cached : Caches → Key → Option Contributor
cached caches (by_identifier identifier) = lookup identifier caches.identifiers
cached caches (by_name name) = lookup name caches.names

unfoldable pub remember : Key → Contributor → Caches → Caches
remember (by_identifier identifier) c caches = record caches {
  identifiers = (identifier, c) ∷ caches.identifiers;
}
remember (by_name name) c caches = record caches { names = (name, c) ∷ caches.names }

abbrev pub Resolve : Type 0 → Type 0
Resolve A = Action Contributors Exception A

-- A contributor that is not cached.
unfoldable pub resolve_contributor : String → ContributionInformations → Key → Resolve Contributor
resolve_contributor source info (by_identifier identifier) = do
  found ←
      get_or_create_contributor_by_identifier source identifier info.name info.first_name
        info.last_name
  let named = update_contributor_name found info.name
  let contributor = update_contributor_structured_name named info.first_name info.last_name
  update_external_identifiers contributor.id info.ext_identifiers
  pure contributor
resolve_contributor source info (by_name name) = get_or_create_contributor_by_name source info.name

abbrev pub cached_or_resolved :
    String
    → ContributionInformations
    → Key
    → Caches
    → Option Contributor
    → Resolve (Contributor × Caches)
cached_or_resolved source info key caches (some contributor) = pure (contributor, caches)
cached_or_resolved source info key caches none = do
  contributor ← resolve_contributor source info key
  pure (contributor, remember key contributor caches)

-- The contributor and the caches with it.
unfoldable pub contributor_for :
    String → ContributionInformations → Key → Caches → Resolve (Contributor × Caches)
contributor_for source info key caches =
    cached_or_resolved source info key caches (cached caches key)

-- `Contribution(...)`, which validates the role.
abbrev pub make_contribution :
    Contributor → ContributionInformations → Outcome Exception Contribution
make_contribution contributor info = elim (validate_role info.role) [
  | raised error ↦ raised error
  | ok role ↦ ok record { contributor = contributor; role = role; rank = info.rank }
]

-- The body of the loop.
unfoldable pub contribution :
    String → ContributionInformations → Caches → Resolve (Contribution × Caches)
contribution source info caches = do
  key ← lift (key_of info)
  resolved ← contributor_for source info key caches
  made ← lift (make_contribution resolved.0 info)
  pure (made, resolved.1)

-- The loop. Its result keeps the caches, which the code drops at the end.
unfoldable pub contributions_from :
    String → List ContributionInformations → Caches → Resolve (List Contribution × Caches)
contributions_from source [] caches = pure ([], caches)
contributions_from source (info ∷ infos) caches = do
  made ← contribution source info caches
  rest ← contributions_from source infos made.1
  pure (made.0 ∷ rest.0, rest.1)

abbrev pub no_caches : Caches
no_caches = record { identifiers = []; names = [] }

-- `_contributions`
unfoldable pub contributions : String → List ContributionInformations → Resolve (List Contribution)
contributions source infos = do made ← contributions_from source infos no_caches; pure made.0
