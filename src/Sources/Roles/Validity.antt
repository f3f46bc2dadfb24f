-- ===== src/Sources/Roles/Validity.antt =====
-- The roles that the sources' converters make are roles of a contribution.
use mathlib.Core.Option.{none-ne-some, some-injective}
use svp_harvester.Prelude.{
  not, ◌||◌, String, Bool, true, false, none, some, List, [], ◌∷◌, all, find?, ◌≡◌, refl, sym, ap,
  ◌∙◌, ◌⊎◌, inl, inr, ◌==◌, string_eq, not, ◌||◌, Option-cases, false≢true, arith, eq→path, path→eq,
}
use svp_harvester.Prelude.Action.{ok}
use svp_harvester.Contributors.Roles.{
  Role, loc_author_roles, role_named, get_url, validate_role, get_url-validate_role,
}
use svp_harvester.Sources.Roles.{
  Mapping, RolesConverter, hal, scanr, idref, sudoc, persee, science_plus, open_edition, hal_roles,
  scanr_roles, sudoc_roles, persee_roles, science_plus_roles, open_edition_roles, value_of,
  member_named, code_of, convert_role,
}
use Prim.Native.String.{String}

-- Whether a code is one of the enumeration.
abbrev is_member : String → Bool
is_member role_code = elim (role_named role_code) [ none ↦ false | some role ↦ true ]

abbrev are_members : Mapping → Bool
are_members = all (λ entry. is_member entry.1)

hal_members : are_members hal_roles ≡ true
unfolding loc_author_roles string_eq
hal_members = refl

scanr_members : are_members scanr_roles ≡ true
unfolding loc_author_roles string_eq
scanr_members = refl

sudoc_members : are_members sudoc_roles ≡ true
unfolding loc_author_roles string_eq
sudoc_members = refl

persee_members : are_members persee_roles ≡ true
unfolding loc_author_roles string_eq
persee_members = refl

science_plus_members : are_members science_plus_roles ≡ true
unfolding loc_author_roles string_eq
science_plus_members = refl

open_edition_members : are_members open_edition_roles ≡ true
unfolding loc_author_roles string_eq
open_edition_members = refl

member_url :
    (role_code : String)
    → is_member role_code ≡ true
    → validate_role (get_url role_code) ≡ ok (get_url role_code)
member_url role_code h = elim (get_url-validate_role role_code) [
  | inl (empty, missing) ↦
      absurd (false≢true (sym (ap (λ o. elim o [ none ↦ false | some role ↦ true ]) missing) ∙ h))
  | inr valid ↦ valid
]

value_of-member :
    (key : String) (mapping : Mapping) (role_code : String)
    → are_members mapping ≡ true
    → value_of key mapping ≡ some role_code
    → is_member role_code ≡ true
value_of-member key [] role_code all_members e = absurd (none-ne-some role_code e)
value_of-member key (entry ∷ entries) role_code all_members e =
    ground (arith, e, all_members, value_of-member key entries role_code)

found-holds :
    (p : Role → Bool) (roles : List Role) (role : Role) → find? p roles ≡ some role → p role ≡ true
found-holds p [] role e = absurd (none-ne-some role e)
found-holds p (r ∷ roles) role e = ground (arith, e, found-holds p roles role)

found-all :
    (p q : Role → Bool) (roles : List Role) (role : Role)
    → all q roles ≡ true
    → find? p roles ≡ some role
    → q role ≡ true
found-all p q [] role all_q e = absurd (none-ne-some role e)
found-all p q (r ∷ roles) role all_q e = ground (arith, all_q, e, found-all p q roles role)

role_named-code :
    (role_code : String) (role : Role) → role_named role_code ≡ some role → role.0 ≡ role_code
role_named-code role_code role e =
    eq→path role.0 role_code (found-holds (λ r. r.0 == role_code) loc_author_roles role e)

member_named-member :
    (role role_code : String) → member_named role ≡ some role_code → is_member role_code ≡ true
member_named-member role role_code e = elim (Option-cases (role_named role)) [
  | inl missing ↦ absurd (
      none-ne-some role_code
        (sym (ap (λ o. elim o [ none ↦ none | some found ↦ some found.0 ]) missing) ∙ e))
  | inr (found, h) ↦
      let its : found.0 ≡ role_code =
        some-injective found.0 role_code
          (sym (ap (λ o. elim o [ none ↦ none | some found ↦ some found.0 ]) h) ∙ e) in
      let same : role ≡ role_code = sym (role_named-code role found h) ∙ its in
      ap (λ c. is_member c) (sym same) ∙ ap (λ o. elim o [ none ↦ false | some r ↦ true ]) h
]

code_of-member :
    (upper : String → String) (converter : RolesConverter) (role role_code : String)
    → code_of upper converter role ≡ some role_code
    → is_member role_code ≡ true
code_of-member upper hal role role_code e = value_of-member role hal_roles role_code hal_members e
code_of-member upper scanr role role_code e =
    value_of-member role scanr_roles role_code scanr_members e
code_of-member upper idref role role_code e = member_named-member (upper role) role_code e
code_of-member upper sudoc role role_code e =
    value_of-member role sudoc_roles role_code sudoc_members e
code_of-member upper persee role role_code e =
    value_of-member role persee_roles role_code persee_members e
code_of-member upper science_plus role role_code e =
    value_of-member role science_plus_roles role_code science_plus_members e
code_of-member upper open_edition role role_code e =
    value_of-member role open_edition_roles role_code open_edition_members e

unknown_member : is_member "UNKNOWN" ≡ true
unfolding loc_author_roles string_eq
unknown_member = refl

abbrev is_known : Role → Bool
is_known role = not (role.2 == "Unknown") || (role.0 == "UNKNOWN")

known_roles : all is_known loc_author_roles ≡ true
unfolding loc_author_roles string_eq
known_roles = refl

-- What `get_url` answers for a member.
get_url_of_found :
    (role_code : String) (role : Role)
    → role_named role_code ≡ some role
    → get_url role_code ≡ role.2
unfolding get_url
get_url_of_found role_code role h = ap (λ o. elim o [ none ↦ "" | some r ↦ r.2 ]) h

unknown_url :
    (role_code : String)
    → is_member role_code ≡ true
    → get_url role_code ≡ "Unknown"
    → role_code ≡ "UNKNOWN"
unknown_url role_code member h = elim (Option-cases (role_named role_code)) [
  | inl missing ↦
      absurd
        (false≢true (sym (ap (λ o. elim o [ none ↦ false | some role ↦ true ]) missing) ∙ member))
  | inr (role, found) ↦
      let url = path→eq role.2 "Unknown" (sym (get_url_of_found role_code role found) ∙ h) in
      let known =
        found-all (λ r. r.0 == role_code) is_known loc_author_roles role known_roles found in
      sym (role_named-code role_code role found)
      ∙ eq→path role.0 "UNKNOWN" (ground (arith, url, known))
]

-- For any `upper`, converter of a source and text: the role that it makes passes the validation of a
-- contribution, and if it is the unknown one, then the source does not know the text or names the
-- member UNKNOWN itself.
pub convert_role-validate_role :
    (upper : String → String) (converter : RolesConverter) (role : String)
    → let made = convert_role upper converter role in
      (validate_role made ≡ ok made)
      × (made ≡ "Unknown"
          → (code_of upper converter role ≡ none) ⊎ (code_of upper converter role ≡ some "UNKNOWN"))
unfolding convert_role
convert_role-validate_role upper converter role =
    elim (Option-cases (code_of upper converter role)) [
      | inl missing ↦ rw missing (member_url "UNKNOWN" unknown_member, λ h. inl refl)
      | inr (role_code, e) ↦
          let member = code_of-member upper converter role role_code e in
          rw e (
            member_url role_code member,
            λ h. inr (ap (λ c. some c) (unknown_url role_code member h)),
          )
    ]
