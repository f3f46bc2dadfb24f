-- ===== src/Sources/Roles/Tests.antt =====
-- The role converters on samples.
use svp_harvester.Prelude.{String, ◌≡◌, refl, ◌==◌, string_eq, if◌then◌else◌, none, some, ◌⊎◌}
use svp_harvester.Prelude.Action.{ok}
use svp_harvester.Contributors.Roles.{loc_author_roles, validate_role, get_url}
use svp_harvester.Sources.Roles.{hal, idref, persee, convert_role, code_of}
use svp_harvester.Sources.Roles.Validity.{convert_role-validate_role}

abbrev upper_sample : String → String
upper_sample text = if text == "aut" then "AUT" else text

of_editor :
    convert_role upper_sample hal "scientific_editor"
    ≡ "https://id.loc.gov/vocabulary/relators/edc.html"
unfolding convert_role get_url loc_author_roles string_eq
of_editor = refl

of_author :
    convert_role upper_sample idref "aut" ≡ "https://id.loc.gov/vocabulary/relators/aut.html"
unfolding convert_role get_url loc_author_roles string_eq
of_author = refl

of_nobody : convert_role upper_sample persee "edt" ≡ "Unknown"
unfolding convert_role get_url loc_author_roles string_eq
of_nobody = refl

convert_role-validate_role_example :
    let made = convert_role upper_sample idref "aut" in
    (validate_role made ≡ ok made)
    × (made ≡ "Unknown"
        → (code_of upper_sample idref "aut" ≡ none)
          ⊎ (code_of upper_sample idref "aut" ≡ some "UNKNOWN"))
convert_role-validate_role_example = convert_role-validate_role upper_sample idref "aut"
