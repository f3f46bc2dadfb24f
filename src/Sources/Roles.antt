-- ===== src/Sources/Roles.antt =====
-- The role converters of the sources: app/harvesters/hal/hal_roles_converter.py,
-- app/harvesters/scanr/scanr_roles_converter.py and those of app/harvesters/idref. A member of
-- `Contribution.LOCAuthorRoles` is written by its code.
pub mod Validity
mod Tests
use svp_harvester.Prelude.{
  String, Option, none, some, List, [], ◌∷◌, ◌==◌, string_eq, if◌then◌else◌,
}
use svp_harvester.Contributors.Roles.{role_named, get_url}

-- The converters, each with the class that it stands for.
pub data RolesConverter : Type 0 where
  hal scanr idref sudoc persee science_plus open_edition : RolesConverter

abbrev pub Mapping : Type 0
Mapping = List (String × String)

abbrev pub hal_roles : Mapping
hal_roles =
    ("aut", "AUT")
    ∷ ("co_first_author", "AUT")
    ∷ ("co_last_author", "AUT")
    ∷ ("crp", "AUT")
    ∷ ("edt", "EDT")
    ∷ ("ctb", "CTB")
    ∷ ("ann", "ANN")
    ∷ ("trl", "TRL")
    ∷ ("compiler", "COM")
    ∷ ("scientific_editor", "EDC")
    ∷ ("ill", "ILL")
    ∷ ("interviewee", "IVE")
    ∷ ("reporter", "IVR")
    ∷ ("enq", "IVR")
    ∷ ("preface_writer", "AUI")
    ∷ ("presenter", "SPK")
    ∷ ("oth", "OTH")
    ∷ ("sad", "SAD")
    ∷ ("spk", "SPK")
    ∷ ("csc", "SAD")
    ∷ ("pro", "FLM")
    ∷ ("dir", "FMD")
    ∷ ("int", "SPK")
    ∷ ("coding", "SWD")
    ∷ ("man", "ANL")
    ∷ ("med", "FLM")
    ∷ ("pht", "PHT")
    ∷ ("project_manager", "PDR")
    ∷ ("cwt", "CWT")
    ∷ ("dis", "DIS")
    ∷ ("com", "FMD")
    ∷ ("rsp", "RSP")
    ∷ ("sds", "SDS")
    ∷ ("ctg", "CTG")
    ∷ ("wam", "WAM")
    ∷ ("ard", "ARD")
    ∷ ("prd", "PRD")
    ∷ ("management", "SWD")
    ∷ ("win", "WIT")
    ∷ ("design", "SWD")
    ∷ ("testing", "SWD")
    ∷ ("stm", "STM")
    ∷ ("maintenance", "SWD")
    ∷ ("support", "SWD")
    ∷ ("documentation", "SWD")
    ∷ ("ctr", "CTB")
    ∷ ("dev", "SWD")
    ∷ ("debugging", "SWD")
    ∷ ("first", "AUT")
    ∷ ("architecture", "SWD")
    ∷ []

abbrev pub scanr_roles : Mapping
scanr_roles =
    ("ann", "ANN")
    ∷ ("architecture", "SWD")
    ∷ ("ard", "ARD")
    ∷ ("author", "AUT")
    ∷ ("coding", "SWD")
    ∷ ("co_first_author", "AUT")
    ∷ ("co_last_author", "AUT")
    ∷ ("com", "FMD")
    ∷ ("compiler", "COM")
    ∷ ("csc", "SAD")
    ∷ ("ctb", "CTB")
    ∷ ("ctg", "CTG")
    ∷ ("ctr", "CTB")
    ∷ ("cwt", "CWT")
    ∷ ("debugging", "SWD")
    ∷ ("design", "SWD")
    ∷ ("dev", "SWD")
    ∷ ("dir", "FMD")
    ∷ ("directeurthese", "THS")
    ∷ ("dis", "DIS")
    ∷ ("documentation", "SWD")
    ∷ ("edt", "EDT")
    ∷ ("enq", "IVR")
    ∷ ("ill", "ILL")
    ∷ ("int", "SPK")
    ∷ ("interviewee", "IVE")
    ∷ ("maintenance", "SWD")
    ∷ ("management", "SWD")
    ∷ ("man", "ANL")
    ∷ ("med", "FLM")
    ∷ ("membrejury", "DGC")
    ∷ ("oth", "OTH")
    ∷ ("pht", "PHT")
    ∷ ("presenter", "SPK")
    ∷ ("presidentjury", "DGC")
    ∷ ("preface_writer", "AUI")
    ∷ ("pro", "FLM")
    ∷ ("prd", "PRD")
    ∷ ("project_manager", "PDR")
    ∷ ("rapporteur", "RAP")
    ∷ ("reporter", "IVR")
    ∷ ("sad", "SAD")
    ∷ ("scientific_editor", "EDC")
    ∷ ("sds", "SDS")
    ∷ ("spk", "SPK")
    ∷ ("stm", "STM")
    ∷ ("support", "SWD")
    ∷ ("testing", "SWD")
    ∷ ("trl", "TRL")
    ∷ ("win", "WIT")
    ∷ ("wam", "WAM")
    ∷ []

abbrev pub sudoc_roles : Mapping
sudoc_roles =
    ("aut", "AUT")
    ∷ ("trl", "TRL")
    ∷ ("opn", "OPN")
    ∷ ("ths", "THS")
    ∷ ("pra", "PRA")
    ∷ ("edt", "EDT")
    ∷ ("pbd", "PBD")
    ∷ ("aui", "AUI")
    ∷ ("clb", "CTB")
    ∷ ("fmo", "FMO")
    ∷ ("dnr", "DNR")
    ∷ ("cur", "CUR")
    ∷ ("aft", "AFT")
    ∷ ("ive", "IVE")
    ∷ ("ctg", "CTG")
    ∷ ("ill", "ILL")
    ∷ ("pht", "PHT")
    ∷ []

abbrev pub persee_roles : Mapping
persee_roles = ("aut", "AUT") ∷ ("trl", "TRL") ∷ ("ctb", "CTB") ∷ []

abbrev pub science_plus_roles : Mapping
science_plus_roles = ("aut", "AUT") ∷ ("ctb", "CTB") ∷ []

abbrev pub open_edition_roles : Mapping
open_edition_roles = ("contributor", "CTB") ∷ ("creator", "AUT") ∷ []

-- The value of a key.
abbrev pub value_of : String → Mapping → Option String
value_of key [] = none
value_of key (entry ∷ entries) = if entry.0 == key then some entry.1 else value_of key entries

-- `loc_url` of the member, or of `UNKNOWN`.
abbrev pub loc_url : Option String → String
loc_url none = get_url "UNKNOWN"
loc_url (some role_code) = get_url role_code

-- `hasattr` and `getattr` of the enumeration.
abbrev pub member_named : String → Option String
member_named role = elim (role_named role) [ none ↦ none | some found ↦ some found.0 ]

-- `str.upper`
module _ (upper : String → String) where
  -- The code of the member, if the role is known to the source.
  abbrev pub code_of : RolesConverter → String → Option String
  code_of hal role = value_of role hal_roles
  code_of scanr role = value_of role scanr_roles
  code_of idref role = member_named (upper role)
  code_of sudoc role = value_of role sudoc_roles
  code_of persee role = value_of role persee_roles
  code_of science_plus role = value_of role science_plus_roles
  code_of open_edition role = value_of role open_edition_roles

  -- `convert`
  unfoldable pub convert_role : RolesConverter → String → String
  unfolding get_url
  convert_role converter role = loc_url (code_of converter role)
