-- ===== src/Sources/Hal/Structures.antt =====
-- The organizations of contributors in app/harvesters/hal/hal_references_converter.py:
-- `_add_organization` and `_organizations_from_contributor`.
use svp_harvester.Prelude.{
  pair_eq, String, cond, Option, none, some, List, [], ◌∷◌, ◌++◌, contains, ◌==◌, string_eq, nat_eq,
  option_eq, pair_eq, if◌then◌else◌,
}
use svp_harvester.Prelude.Action.{Action, pure, Outcome, ok, raised, lift, ◌>>=◌}
use svp_harvester.Prelude.Splitting.{split}
use svp_harvester.Harvesting.Model.{Exception}
use svp_harvester.Organizations.{
  OrganizationInformations, OrganizationError, NewOrganization, Organization, Organizations,
  organizations,
}
use svp_harvester.Contributors.Contributions.{Contribution, contributions}
use svp_harvester.Sources.Hal.{Payload, get, texts, facet_separator, join_separator, two}

abbrev pub organization :
    Outcome Exception (String × String) → Outcome Exception (Option OrganizationInformations)
organization (raised e) = raised e
organization (ok parts) = ok (some (some parts.1, (some parts.0, some "hal")))

abbrev if_its :
    Option String
    → String
    → Outcome Exception (String × String)
    → Outcome Exception (Option OrganizationInformations)
if_its id_contributor org (raised e) = raised e
if_its id_contributor org (ok ids) =
    if some ids.1 == id_contributor then organization (two (split facet_separator org)) else ok none

abbrev with_auth :
    Option String
    → String
    → Outcome Exception (String × String)
    → Outcome Exception (Option OrganizationInformations)
with_auth id_contributor org (raised e) = raised e
with_auth id_contributor org (ok auth) = if_its id_contributor org (two (split "-" auth.0))

abbrev with_parts :
    Option String
    → Outcome Exception (String × String)
    → Outcome Exception (Option OrganizationInformations)
with_parts id_contributor (raised e) = raised e
with_parts id_contributor (ok parts) =
    with_auth id_contributor parts.1 (two (split facet_separator parts.0))

-- The body of the loop of `_organizations_from_contributor`.
unfoldable pub organization_of :
    Option String → String → Outcome Exception (Option OrganizationInformations)
unfolding split
organization_of id_contributor auth_org =
    with_parts id_contributor (two (split join_separator auth_org))

-- `organizations.add`
abbrev pub add_to :
    List OrganizationInformations → Option OrganizationInformations → List OrganizationInformations
add_to organizations none = organizations
add_to organizations (some found) =
    cond (contains organizations found) organizations (organizations ++ found ∷ [])

abbrev pub organizations_from :
    Option String
    → List String
    → List OrganizationInformations
    → Outcome Exception (List OrganizationInformations)
organizations_from id_contributor [] organizations = ok organizations
organizations_from id_contributor (auth_org ∷ rest) organizations =
    elim (organization_of id_contributor auth_org) [
      | raised e ↦ raised e
      | ok found ↦ organizations_from id_contributor rest (add_to organizations found)
    ]

-- `_organizations_from_contributor`, the set as a list without repetitions.
unfoldable pub organizations_from_contributor :
    Payload → Option String → Outcome Exception (List OrganizationInformations)
unfolding organization_of
organizations_from_contributor payload id_contributor =
    organizations_from id_contributor (texts (get "authIdHasStructure_fs" payload)) []

-- The organizations of a contribution, and those of all contributions: `_add_organization`.
module _
    (solve : String → OrganizationInformations → Outcome OrganizationError NewOrganization) where
  abbrev pub affiliations_of :
      Payload → Contribution → Action Organizations Exception (List Organization)
  affiliations_of payload contribution = do
    found ← lift (organizations_from_contributor payload contribution.contributor.source_identifier)
    organizations solve found

  unfoldable pub add_organization :
      Payload
      → List Contribution
      → Action Organizations Exception (List (Contribution × List Organization))
  unfolding organizations_from_contributor
  add_organization payload [] = pure []
  add_organization payload (contribution ∷ contributions) = do
    affiliations ← affiliations_of payload contribution
    rest ← add_organization payload contributions
    pure ((contribution, affiliations) ∷ rest)
