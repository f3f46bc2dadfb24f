-- ===== src/Sources/Hal.antt =====
-- What a converter of HAL reads of a document (app/harvesters/hal/hal_references_converter.py). A document of
-- HAL is a list of fields with one text or several, numbers being written as texts; iterating over
-- one text gives its characters. What the TEI part says of an author is a parameter.
pub mod Contributions
pub mod Structures
pub mod Authors
pub mod Affiliations
pub mod Reading
mod Tests
use Prim.Native.Char.{code}
use svp_harvester.Prelude.{
  pair_eq, ℕ, zero, suc, String, Bool, true, false, not, cond, ◌&&◌, Option, none, some, List, [],
  ◌∷◌, ◌++◌, map, length, contains, ◌==◌, string_eq, nat_eq, option_eq, pair_eq, if◌then◌else◌,
}
use svp_harvester.Prelude.Action.{Action, pure, Outcome, ok, raised, lift, ◌>>=◌}
use svp_harvester.Prelude.Splitting.{cut, split}
use svp_harvester.Harvesting.Model.{Exception, unexpected_format}
use svp_harvester.Harvesting.Converter.{other_error}
use svp_harvester.Organizations.{
  OrganizationInformations, OrganizationError, NewOrganization, Organization, Organizations,
  organizations,
}
use svp_harvester.Contributors.{Identifier}
use svp_harvester.Contributors.Contributions.{
  ContributionInformations, Contribution, Resolve, contributions,
}
use svp_harvester.Sources.Roles.{hal, convert_role}

-- The value of a field.
pub data Value : Type 0 where
  one : String → Value
  many : List String → Value

abbrev pub Payload : Type 0
Payload = List (String × Value)

-- `raw_data.get(key)`
abbrev pub get : String → Payload → Option Value
get key [] = none
get key (field ∷ fields) = if field.0 == key then some field.1 else get key fields

abbrev pub characters : String → List String
characters String.[] = []
characters (String.◌∷◌ c text) = String.◌∷◌ c String.[] ∷ characters text

-- The list that `raw_data.get(key, [])` is or is iterated as.
abbrev pub texts : Option Value → List String
texts none = []
texts (some (one text)) = characters text
texts (some (many values)) = values

abbrev pub facet_separator : String
facet_separator = "_FacetSep_"

abbrev pub join_separator : String
join_separator = "_JoinSep_"

abbrev pub unexpected_format_exception : Exception
unexpected_format_exception = record { kind = unexpected_format; message = "unexpected format" }

-- `raw_data['halId_s']` in a message comes before what is done with the message.
abbrev pub with_hal_id {ℓ} : {A : Type ℓ} → Payload → Outcome Exception A → Outcome Exception A
with_hal_id payload next = elim (get "halId_s" payload) [
  | none ↦ raised (other_error "KeyError")
  | some hal_id ↦ next
]

-- The assignment of a list to two names.
abbrev pub two : List String → Outcome Exception (String × String)
two (first ∷ second ∷ []) = ok (first, second)
two [] = raised (other_error "ValueError")
two (first ∷ []) = raised (other_error "ValueError")
two (first ∷ second ∷ third ∷ more) = raised (other_error "ValueError")
