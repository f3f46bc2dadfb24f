-- ===== src/Sources/Hal/Contributions.antt =====
-- `_add_contributions` of app/harvesters/hal/hal_references_converter.py.
use Prim.Native.Char.{code}
use svp_harvester.Prelude.{
  pair_eq, ℕ, zero, suc, String, Bool, true, false, not, ◌&&◌, Option, none, some, List, [], ◌∷◌,
  map, length, ◌==◌, string_eq, nat_eq, option_eq, pair_eq, if◌then◌else◌,
}
use svp_harvester.Prelude.Action.{Outcome, ok, raised, lift, ◌>>=◌}
use svp_harvester.Prelude.Splitting.{cut, split}
use svp_harvester.Harvesting.Model.{Exception}
use svp_harvester.Harvesting.Converter.{other_error}
use svp_harvester.Contributors.{Identifier}
use svp_harvester.Contributors.Contributions.{
  ContributionInformations, Contribution, Resolve, contributions,
}
use svp_harvester.Sources.Roles.{hal, convert_role}
use svp_harvester.Sources.Hal.{
  Payload, get, texts, facet_separator, unexpected_format_exception, with_hal_id, two,
}

-- No character is the end of a line, which `.` does not match.
abbrev pub is_line : String → Bool
is_line String.[] = true
is_line (String.◌∷◌ c text) = not (code c == 10) && is_line text

-- A step of a pattern: `.*` and a text.
abbrev pub matched : String → Option String → Option String
matched pattern none = none
matched pattern (some text) = elim (cut pattern text) [
  | none ↦ none
  | some parts ↦ if is_line parts.0 then some parts.1 else none
]

abbrev pub is_matched : Option String → Bool
is_matched none = false
is_matched (some rest) = true

-- `re.match(r".*_FacetSep_.*-.*_FacetSep_", contributor)`
abbrev pub is_contributor : String → Bool
is_contributor contributor =
    is_matched (matched facet_separator (matched "-" (matched facet_separator (some contributor))))

abbrev pub with_ids :
    String → Outcome Exception (String × String) → Outcome Exception (String × String × String)
with_ids name (raised e) = raised e
with_ids name (ok ids) = ok (name, ids.0, ids.1)

abbrev pub name_and_ids : List String → Outcome Exception (String × String × String)
name_and_ids (name ∷ ids ∷ id_hal_s ∷ []) = with_ids name (two (split "-" ids))
name_and_ids [] = raised (other_error "ValueError")
name_and_ids (name ∷ []) = raised (other_error "ValueError")
name_and_ids (name ∷ ids ∷ []) = raised (other_error "ValueError")
name_and_ids (name ∷ ids ∷ id_hal_s ∷ fourth ∷ more) = raised (other_error "ValueError")

-- Name, `form_id` and `id_hal`.
unfoldable pub parse_contributor : String → Outcome Exception (String × String × String)
unfolding split
parse_contributor contributor =
    if is_contributor contributor
    then name_and_ids (split facet_separator contributor)
    else raised unexpected_format_exception

-- `HalRolesConverter.convert`
abbrev pub hal_role : String → String
hal_role quality = convert_role (λ text. text) hal quality

-- `id_hal if id_hal != "0" else form_id`
abbrev pub source_identifier_of : String → String → String
source_identifier_of form_id id_hal = if id_hal == "0" then form_id else id_hal

abbrev pub nones : ℕ → List (Option String)
nones zero = []
nones (suc n) = none ∷ nones n

abbrev pub somes : List String → List (Option String)
somes = map (λ name. some name)

-- `tei_decoder.get_identifiers`, if there is a TEI part.
module _ (get_identifiers : Option (String → List Identifier)) where
  abbrev pub ext_identifiers_of : String → List Identifier
  ext_identifiers_of id_hal = elim get_identifiers [ none ↦ [] | some get ↦ get id_hal ]

  abbrev pub informations :
      ℕ
      → String
      → Option String
      → Option String
      → String × String × String
      → ContributionInformations
  informations rank quality first_name last_name parsed = record {
    role = hal_role quality;
    rank = some rank;
    name = some parsed.0;
    first_name = first_name;
    last_name = last_name;
    identifier = some (source_identifier_of parsed.1 parsed.2);
    ext_identifiers = some (ext_identifiers_of parsed.2);
  }

  abbrev pub put_before :
      ContributionInformations
      → Outcome Exception (List ContributionInformations)
      → Outcome Exception (List ContributionInformations)
  put_before info (raised e) = raised e
  put_before info (ok infos) = ok (info ∷ infos)

  -- The loop over the four lists that are zipped.
  abbrev pub informations_from :
      ℕ
      → List String
      → List String
      → List (Option String)
      → List (Option String)
      → Outcome Exception (List ContributionInformations)
  informations_from rank (quality ∷ qualities) (contributor ∷ contributors) (first ∷ firsts)
        (last ∷ lasts) =
      let rest = informations_from (suc rank) qualities contributors firsts lasts in
      elim (parse_contributor contributor) [
        | raised e ↦ raised e
        | ok parsed ↦ put_before (informations rank quality first last parsed) rest
      ]
  informations_from rank [] contributors firsts lasts = ok []
  informations_from rank (quality ∷ qualities) [] firsts lasts = ok []
  informations_from rank (quality ∷ qualities) (contributor ∷ contributors) [] lasts = ok []
  informations_from rank (quality ∷ qualities) (contributor ∷ contributors) (first ∷ firsts) [] =
      ok []

  -- The lists of names are replaced if their lengths are not the number of contributors.
  abbrev pub with_names :
      Payload
      → List String
      → List String
      → List String
      → List String
      → Outcome Exception (List ContributionInformations)
  with_names payload qualities contributors first_names last_names =
      if (length first_names == length last_names) && (length first_names == length contributors)
      then informations_from 0 qualities contributors (somes first_names) (somes last_names)
      else with_hal_id payload (
          informations_from 0 qualities contributors (nones (length contributors))
            (nones (length contributors)))

  -- `_add_contributions` up to the call of `_contributions`.
  unfoldable pub contribution_informations :
      Payload → Outcome Exception (List ContributionInformations)
  unfolding parse_contributor
  contribution_informations payload =
      let contributors = texts (get "authFullNameFormIDPersonIDIDHal_fs" payload) in
      let qualities = texts (get "authQuality_s" payload) in
      if length qualities == length contributors
      then with_names payload qualities contributors (texts (get "authFirstName_s" payload))
          (texts (get "authLastName_s" payload))
      else with_hal_id payload (raised unexpected_format_exception)

  -- `_add_contributions`
  unfoldable pub add_contributions : Payload → Resolve (List Contribution)
  unfolding contribution_informations
  add_contributions payload = do
    infos ← lift (contribution_informations payload)
    contributions "hal" infos
