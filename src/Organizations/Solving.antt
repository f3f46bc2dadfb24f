-- ===== src/Organizations/Solving.antt =====
-- Organizations of HAL and Scopus are created or found whatever other processes do.
use svp_harvester.Prelude.{
  String, Option, none, some, List, [], ◌∷◌, All, contains, ◌==◌, string_eq, if◌then◌else◌, ◌≡◌,
  refl, ap, ◌∙◌, inl, inr, Bool-cases,
}
use svp_harvester.Prelude.Action.{Outcome, ok, raised}
use svp_harvester.Organizations.{
  OrganizationIdentifier, NewOrganization, OrganizationInformations, Organizations,
  dereferencing_error, get_or_create_organization, OrganizationError,
}
use svp_harvester.Organizations.Storing.{
  IsSolvable, IsAnswered, get_or_create_organization-IsAnswered,
}
use svp_harvester.Organizations.Solvers.{
  HalStructure, HalAnswer, Saved, item, identity_save, type_mapping, save_code, save_identity,
  save_identities, with_type, with_type_s, with_identities, with_name, solve_hal, solve_scopus,
  solve_organization,
}

-- What is required for an answer of HAL to be usable: if there is one, it has a structure, of a type
-- that is known, and no list of codes is empty.
abbrev pub HasCode : Option (List String) → Type 0
HasCode none = Unit
HasCode (some []) = ⊥
HasCode (some (code ∷ codes)) = Unit

pub record IsUsableStructure (structure : HalStructure) : Type 0 where
  pub kind : String
  pub type_s : String
  pub typed : structure.type_s ≡ some type_s
  pub known : item type_s type_mapping ≡ some kind
  pub coded : All (λ entry. HasCode (item entry.0 structure.codes)) identity_save

abbrev pub IsUsable : HalAnswer → Type 0
IsUsable none = Unit
IsUsable (some []) = ⊥
IsUsable (some (structure ∷ structures)) = IsUsableStructure structure

save_code-saves :
    (source : String) (saved : List OrganizationIdentifier × List String)
    (codes : Option (List String))
    → HasCode codes
    → (further : List OrganizationIdentifier × List String) × (save_code source saved codes
        ≡ ok further)
save_code-saves source saved none h = (saved, refl)
save_code-saves source saved (some []) h = absurd h
save_code-saves source saved (some (code ∷ codes)) h = (_, refl)

-- Every code of the structure is saved.
Saves : Saved → Type 0
Saves saved = (further : List OrganizationIdentifier × List String) × (saved ≡ ok further)

save_identity-saves :
    (structure : HalStructure) (entry : String × String)
    (saved : List OrganizationIdentifier × List String)
    → HasCode (item entry.0 structure.codes)
    → (further : List OrganizationIdentifier × List String) × (save_identity structure entry saved
        ≡ ok further)
unfolding save_identity
save_identity-saves structure (key, source) (identifiers, seen) coded =
    elim (Bool-cases (contains seen source)) [
      | inl known ↦ ((identifiers, seen), rw known refl)
      | inr new ↦
          rw new (save_code-saves source (identifiers, seen) (item key structure.codes) coded)
    ]

save_identities-saves :
    (structure : HalStructure) (entries : List (String × String))
    (saved : List OrganizationIdentifier × List String)
    → All (λ entry. HasCode (item entry.0 structure.codes)) entries
    → (further : List OrganizationIdentifier × List String) × (save_identities structure entries
          saved
        ≡ ok further)
unfolding save_identities
save_identities-saves structure [] saved coded = (saved, refl)
save_identities-saves structure (entry ∷ entries) saved coded =
    let (next, saves) = save_identity-saves structure entry saved coded.0 in
    let (further, rest) = save_identities-saves structure entries next coded.1 in
    (further, rw (save_identities, saves) rest)

module _ (identifier : String) (name : String) where
  abbrev pub of_source : String → OrganizationInformations
  of_source source = (some name, (some identifier, some source))

  -- The solver of HAL, with the name that it finds.
  with_name-IsSolvable :
      (solve : String → OrganizationInformations → Outcome OrganizationError NewOrganization)
      (structure : HalStructure) (found : Option String)
      → solve identifier (of_source "hal") ≡ with_name identifier structure found
      → IsUsableStructure structure
      → IsSolvable solve identifier (of_source "hal")
  with_name-IsSolvable solve structure none e usable = inr (e, refl)
  with_name-IsSolvable solve structure (some found) e usable = elim (Bool-cases (found == "")) [
    | inl empty ↦ inr (e ∙ rw empty refl, refl)
    | inr named ↦
        let (saved, saves) =
          save_identities-saves structure identity_save ([], "hal" ∷ []) usable.coded in
        let solved =
          e
          ∙ ap
              (λ b.
                if b
                then raised dereferencing_error
                else with_type_s identifier found structure structure.type_s)
              named
          ∙ ap (λ t. with_type_s identifier found structure t) usable.typed
          ∙ ap (λ k. with_type identifier found structure k) usable.known
          ∙ ap (λ r. with_identities identifier found usable.kind r) saves in
        inl (_, solved, refl, refl)
  ]

  -- The organizations that a source solves: those of Scopus, and of HAL if its answer is usable.
  pub data IsOfSource (hal_answer : String → HalAnswer) : String → Type 0 where
    in_hal : IsUsable (hal_answer identifier) → IsOfSource hal_answer "hal"
    in_scopus : IsOfSource hal_answer "scopus"

  solve_hal-IsSolvable :
      (solve : String → OrganizationInformations → Outcome OrganizationError NewOrganization)
      (answer : HalAnswer)
      → solve identifier (of_source "hal") ≡ solve_hal identifier answer
      → IsUsable answer
      → IsSolvable solve identifier (of_source "hal")
  unfolding solve_hal
  solve_hal-IsSolvable solve none e usable = inr (e, refl)
  solve_hal-IsSolvable solve (some []) e usable = absurd usable
  solve_hal-IsSolvable solve (some (structure ∷ structures)) e usable =
      with_name-IsSolvable solve structure structure.name_s e usable

  solve_organization-IsSolvable :
      (hal_answer : String → HalAnswer) (source : String)
      → IsOfSource hal_answer source
      → IsSolvable (solve_organization hal_answer) identifier (of_source source)
  unfolding solve_organization solve_scopus string_eq
  solve_organization-IsSolvable hal_answer _ (in_hal usable) =
      solve_hal-IsSolvable (solve_organization hal_answer) (hal_answer identifier) refl usable
  solve_organization-IsSolvable hal_answer _ in_scopus = inl (_, refl, refl, refl)

  -- For an organization with a name, of Scopus or of HAL, where HAL fails, or answers a structure of a
  -- known type and with no empty list of codes: whatever organizations other processes insert, the
  -- call never fails. It returns an organization that the table then holds, and that has the
  -- identifier or is one to which the identifiers of the solution were added.
  pub get_or_create_organization-of_source :
      (hal_answer : String → HalAnswer) (source : String) (s : Organizations)
      → IsOfSource hal_answer source
      → let solve = solve_organization hal_answer in
        IsAnswered solve identifier
          (of_source source)
          (get_or_create_organization solve identifier (of_source source) s)
  get_or_create_organization-of_source hal_answer source s its =
      get_or_create_organization-IsAnswered (solve_organization hal_answer) identifier
        (of_source source) s (solve_organization-IsSolvable hal_answer source its)
