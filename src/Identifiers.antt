-- ===== src/Identifiers.antt =====
-- The inference of HAL identifiers from URLs: app/services/identifiers. The parts of a URL that
-- `urlparse` gives and the digits of regular expressions are parameters.
pub mod Stripping
pub mod Recovery
pub mod Slashes
pub mod Versions
pub mod Paths
mod Tests
use Prim.Native.Char.{Char, code}
use svp_harvester.Prelude.{
  String, ◌<>◌, Bool, true, false, not, ◌&&◌, ◌||◌, Option, none, some, List, [], ◌∷◌, ◌++◌, any,
  ◌==◌, string_eq, nat_eq, if◌then◌else◌,
}
use svp_harvester.Prelude.Splitting.{begins, drop, text_length, cut, split}

-- `hal_accepted_patterns.yaml`
abbrev pub accepted_patterns : List String
accepted_patterns =
    "acs" ∷ "cea" ∷ "dumas" ∷ "hal" ∷ "halshs" ∷ "in2p3" ∷ "ineris" ∷ "inria" ∷ "inserm" ∷ "insu"
    ∷ "jpa" ∷ "lirmm" ∷ "medihal" ∷ "pasteur" ∷ "sic" ∷ "tel" ∷ []

-- `IdentifierInferenceService.Rule`
pub data Rule : Type 0 where
  hal_id_from_hal_url : Rule

-- What is used of the result of `urlparse`.
pub record ParsedUrl : Type 0 where
  pub scheme : String
  pub netloc : String
  pub path : String

abbrev pub is_one_of : String → Char → Bool
is_one_of String.[] c = false
is_one_of (String.◌∷◌ d chars) c = (code c == code d) || is_one_of chars c

-- A character before a text that was stripped.
abbrev pub strip_onto : String → Char → String → String
strip_onto chars c String.[] = if is_one_of chars c then String.[] else String.◌∷◌ c String.[]
strip_onto chars c (String.◌∷◌ d text) = String.◌∷◌ c (String.◌∷◌ d text)

-- `str.rstrip`, which takes characters off and not a suffix.
abbrev pub rstrip : String → String → String
rstrip chars String.[] = String.[]
rstrip chars (String.◌∷◌ c text) = strip_onto chars c (rstrip chars text)

-- `(/.*)?$` after `/file`; a path has no ends of lines.
abbrev pub is_rest : String → Bool
is_rest String.[] = true
is_rest (String.◌∷◌ c text) = code c == 47

-- `re.sub(r"/file(/.*)?$", "", path)`
abbrev pub remove_file : String → String
remove_file String.[] = String.[]
remove_file (String.◌∷◌ c text) =
    let rest = remove_file text in
    if begins "/file" (String.◌∷◌ c text) && is_rest (drop 5 (String.◌∷◌ c text))
    then String.[]
    else String.◌∷◌ c rest

-- `parts[-1]` of a first part and the others
abbrev pub last_of : String → List String → String
last_of part [] = part
last_of part (next ∷ parts) = last_of next parts

abbrev pub last_part : List String → String
last_part [] = String.[]
last_part (part ∷ parts) = last_of part parts

-- `str.removesuffix` with a suffix that is not empty
abbrev pub removesuffix : String → String → String
removesuffix suffix String.[] = String.[]
removesuffix suffix (String.◌∷◌ c text) =
    let rest = removesuffix suffix text in
    if String.◌∷◌ c text == suffix then String.[] else String.◌∷◌ c rest

-- The identifier without the version that the pattern found.
abbrev pub without_version : String → Option (Option String) → Option String
without_version hal_id none = none
without_version hal_id (some none) = some hal_id
without_version hal_id (some (some version)) = some (removesuffix version hal_id)

abbrev pub is_in : String → String → Bool
is_in part text = elim (cut part text) [ none ↦ false | some parts ↦ true ]

module _ (is_digit : Char → Bool) where
  abbrev pub skip_digits : String → String
  skip_digits String.[] = String.[]
  skip_digits (String.◌∷◌ c text) =
      let rest = skip_digits text in if is_digit c then rest else String.◌∷◌ c text

  abbrev pub take_digits : String → String
  take_digits String.[] = String.[]
  take_digits (String.◌∷◌ c text) =
      let rest = take_digits text in if is_digit c then String.◌∷◌ c rest else String.[]

  abbrev pub starts_with_digit : String → Bool
  starts_with_digit String.[] = false
  starts_with_digit (String.◌∷◌ c text) = is_digit c

  -- `(v\d+)?`
  abbrev pub version_in : String → Option String
  version_in String.[] = none
  version_in (String.◌∷◌ c text) =
      if (code c == 118) && starts_with_digit text
      then some (String.◌∷◌ c (take_digits text))
      else none

  -- The pattern with `-\d+(v\d+)?`: the group of the version, if it matches.
  abbrev pub match_pattern : String → String → Option (Option String)
  match_pattern pattern hal_id =
      let rest = drop (text_length (pattern <> "-")) hal_id in
      if begins (pattern <> "-") hal_id && starts_with_digit rest
      then some (version_in (skip_digits rest))
      else none

  -- `re.match` with the patterns as alternatives.
  abbrev pub match_any : List String → String → Option (Option String)
  match_any [] hal_id = none
  match_any (pattern ∷ patterns) hal_id = elim (match_pattern pattern hal_id) [
    | some version ↦ some version
    | none ↦ match_any patterns hal_id
  ]

  -- `extract_hal_id` from the path on.
  unfoldable pub hal_id_in : String → Option String
  unfolding split
  hal_id_in path =
      let hal_id = last_part (split "/" (remove_file (rstrip "/document" path))) in
      without_version hal_id (match_any accepted_patterns hal_id)

  abbrev pub hal_id_of : ParsedUrl → Option String
  hal_id_of url =
      if (url.scheme == "") || ((url.netloc == "") || not (is_in "hal." url.netloc))
      then none
      else hal_id_in url.path

  module _ (urlparse : String → ParsedUrl) where
    -- `extract_hal_id`
    unfoldable pub extract_hal_id : Option String → Option String
    unfolding hal_id_in
    extract_hal_id none = none
    extract_hal_id (some url) = if url == "" then none else hal_id_of (urlparse url)

    -- The first page of a manifestation that an identifier is found in.
    abbrev pub infer_from : List (Option String) → List (String × String) → List (String × String)
    infer_from [] identifiers = identifiers
    infer_from (page ∷ pages) identifiers = elim (extract_hal_id page) [
      | some hal_id ↦
          if hal_id == "" then infer_from pages identifiers else identifiers ++ ("hal", hal_id) ∷ []
      | none ↦ infer_from pages identifiers
    ]

    -- `infer`: the identifiers of a reference, by type and value, from the pages of its manifestations.
    unfoldable pub infer : List (Option String) → List (String × String) → List (String × String)
    unfolding extract_hal_id
    infer pages identifiers =
        let inferred = infer_from pages identifiers in
        if any (λ identifier. identifier.0 == "hal") identifiers then identifiers else inferred

    abbrev pub infer_with :
        Rule → List (Option String) → List (String × String) → List (String × String)
    infer_with hal_id_from_hal_url pages identifiers = infer pages identifiers

    -- `infer_identifiers`, the rules one after the other
    abbrev pub infer_identifiers :
        List Rule → List (Option String) → List (String × String) → List (String × String)
    infer_identifiers [] pages identifiers = identifiers
    infer_identifiers (rule ∷ rules) pages identifiers =
        infer_identifiers rules pages (infer_with rule pages identifiers)
