-- ===== src/Organizations/Storing.antt =====
-- Which organization a call of `_get_or_create_organization_by_identifier` returns.
use svp_harvester.Organizations.Rows.{
  IsIn, IsIn-append, IsIn-last, first-IsIn, interfere-IsIn, update_row-IsIn, IsStorable,
  commit_accepted,
}
use svp_harvester.Prelude.{
  eq→path, String, Option, none, some, List, [], ◌∷◌, ◌++◌, length, ◌==◌, string_eq, nat_eq,
  if◌then◌else◌, ◌≡◌, refl, ap, ◌∙◌, ◌⊎◌, inl, inr, Bool-cases, Option-cases, path→eq,
}
use svp_harvester.Prelude.Action.{Outcome, ok, raised}
use svp_harvester.Harvesting.Model.{Exception}
use svp_harvester.Tables.{add, commit, interfere, add}
use svp_harvester.Organizations.{
  has_any_of, OrganizationIdentifier, NewOrganization, Organization, Organizations, make,
  is_refused, get_organization_by_source_identifier, get_organization_by_identifiers,
  merge_organization, OrganizationError, dereferencing_error, Create, add_organization,
  merge_and_commit, add_or_merge, without_solution, create_organization, attempt_organization,
  violated_twice, get_or_create_organization, OrganizationInformations,
}

module _
    (solve : String → OrganizationInformations → Outcome OrganizationError NewOrganization) where
  -- The solver answers a storable organization with the identifier, or that it cannot be dereferenced, in
  -- which case the informations are storable.
  abbrev pub IsSolvable : String → OrganizationInformations → Type 0
  IsSolvable identifier info =
      ((new : NewOrganization) × (solve identifier info ≡ ok new)
        × (new.source_identifier ≡ identifier)
        × IsStorable new)
      ⊎ ((solve identifier info ≡ raised dereferencing_error)
          × IsStorable (without_solution identifier info))

  -- The organization has the identifier, or it is one that the identifiers of the solution were added to.
  abbrev pub IsAnswer : String → OrganizationInformations → Organization → Type 0
  IsAnswer identifier info row =
      (row.source_identifier ≡ identifier)
      ⊎ ((new : NewOrganization) × (before : List OrganizationIdentifier) × (solve identifier info
            ≡ ok new)
          × (row.identifiers ≡ before ++ new.identifiers))

  pub record IsAnswered (identifier : String) (info : OrganizationInformations)
      (done : Outcome Exception Organization × Organizations) : Type 0 where
    pub row : Organization
    pub after : Organizations
    pub returns : done ≡ (ok row, after)
    pub stored : IsIn row after.rows
    pub answer : IsAnswer identifier info row

  add-IsAnswered :
      (retry : Create) (identifier : String) (info : OrganizationInformations)
      (new : NewOrganization) (s : Organizations)
      → new.source_identifier ≡ identifier
      → IsStorable new
      → IsAnswered identifier info (add_organization retry new s)
  unfolding add_organization commit
  add-IsAnswered retry identifier info new s same storable =
      let t = interfere make is_refused s.concurrent s in
      record {
        row = make t.next_id new;
        after = add make is_refused new t;
        returns =
            ap (λ r. elim (r.0) [ some row ↦ (ok row, r.1) | none ↦ retry r.1 ])
              (commit_accepted new s storable);
        stored = IsIn-last (make t.next_id new) t.rows;
        answer = inl same;
      }

  merge-IsAnswered :
      (identifier : String) (info : OrganizationInformations) (same : Organization)
      (new : NewOrganization) (s : Organizations)
      → solve identifier info ≡ ok new
      → IsIn same s.rows
      → IsAnswered identifier info (merge_and_commit same new s)
  unfolding merge_and_commit
  merge-IsAnswered identifier info same new s solved known = record {
    row = merge_organization same new;
    after = (merge_and_commit same new s).1;
    returns = refl;
    stored =
        update_row-IsIn (merge_organization same new) same _ refl
          (interfere-IsIn s.concurrent s same known);
    answer = inr (new, same.identifiers, solved, refl);
  }

  add_or_merge-IsAnswered :
      (retry : Create) (identifier : String) (info : OrganizationInformations)
      (new : NewOrganization) (s : Organizations) (found : Option Organization)
      → get_organization_by_identifiers new.identifiers s.rows ≡ found
      → solve identifier info ≡ ok new
      → new.source_identifier ≡ identifier
      → IsStorable new
      → IsAnswered identifier info (add_or_merge retry new found s)
  unfolding get_organization_by_identifiers
  add_or_merge-IsAnswered retry identifier info new s none e solved same storable =
      add-IsAnswered retry identifier info new s same storable
  add_or_merge-IsAnswered retry identifier info new s (some row) e solved same storable =
      elim (Bool-cases (length row.identifiers == length new.identifiers)) [
        | inl equal ↦ rw equal (add-IsAnswered retry identifier info new s same storable)
        | inr different ↦ rw different (
            merge-IsAnswered identifier info row new s solved
              (first-IsIn (has_any_of new.identifiers) s.rows row e).0)
      ]

  attempt-IsAnswered :
      (retry : Create) (identifier : String) (info : OrganizationInformations) (s : Organizations)
      → IsSolvable identifier info
      → IsAnswered identifier info (attempt_organization solve retry identifier info s)
  unfolding attempt_organization create_organization get_organization_by_source_identifier
  attempt-IsAnswered retry identifier info s solvable =
      elim (Option-cases (get_organization_by_source_identifier identifier s.rows)) [
        | inr (row, found) ↦
            let its = first-IsIn (λ r. r.source_identifier == identifier) s.rows row found in
            record {
              row = row;
              after = s;
              returns = rw (attempt_organization, found) refl;
              stored = its.0;
              answer = inl (eq→path row.source_identifier identifier its.1);
            }
        | inl missing ↦
            rw (attempt_organization, missing)
              (elim solvable [
                | inl (new, solved, same, storable) ↦
                    rw (create_organization, solved)
                      (add_or_merge-IsAnswered retry identifier info new s
                        (get_organization_by_identifiers new.identifiers s.rows) refl solved same
                        storable)
                | inr (failed, storable) ↦
                    rw (create_organization, failed)
                      (add-IsAnswered retry identifier info (without_solution identifier info) s
                        refl storable)
              ])
      ]

  -- For any solver that answers an organization with the identifier, a source and a name, or that it
  -- cannot be dereferenced while the informations have a source and a name: whatever organizations
  -- other processes insert, the call never fails. It returns an organization that the table then
  -- holds, and that has the identifier or is one to which the identifiers of the solution were added.
  pub get_or_create_organization-IsAnswered :
      (identifier : String) (info : OrganizationInformations) (s : Organizations)
      → IsSolvable identifier info
      → IsAnswered identifier info (get_or_create_organization solve identifier info s)
  unfolding get_or_create_organization
  get_or_create_organization-IsAnswered identifier info s solvable =
      attempt-IsAnswered (attempt_organization solve violated_twice identifier info) identifier info
        s solvable

  -- If the table lacks the identifier, the solver answers an organization with a source and a name, and
  -- the first organization of the table that has any of its identifiers, by type and by value, has
  -- as many as the answer: then the call does not merge them but adds another organization with the
  -- same number of identifiers, and the table holds both.
  pub get_or_create_organization-unmerged :
      (identifier : String) (info : OrganizationInformations) (s : Organizations)
      (new : NewOrganization) (same : Organization)
      → get_organization_by_source_identifier identifier s.rows ≡ none
      → solve identifier info ≡ ok new
      → IsStorable new
      → get_organization_by_identifiers new.identifiers s.rows ≡ some same
      → length same.identifiers ≡ length new.identifiers
      → let t = interfere make is_refused s.concurrent s in
        (get_or_create_organization solve identifier info s
          ≡ (ok (make t.next_id new), add make is_refused new t))
        × IsIn same (add make is_refused new t).rows
        × IsIn (make t.next_id new) (add make is_refused new t).rows
  unfolding get_or_create_organization attempt_organization create_organization add_organization
      get_organization_by_identifiers
  get_or_create_organization-unmerged identifier info s new same missing solved storable found
        equal =
      let t = interfere make is_refused s.concurrent s in
      let known = (first-IsIn (has_any_of new.identifiers) s.rows same found).0 in
      let retry = attempt_organization solve violated_twice identifier info in
      let numbers = path→eq (length same.identifiers) (length new.identifiers) equal in
      (
        ap
              (λ o. elim o [
                | some row ↦ (ok row, s)
                | none ↦ create_organization retry identifier info (solve identifier info) s
              ])
              missing
            ∙ ap (λ o. create_organization retry identifier info o s) solved
            ∙ ap (λ o. add_or_merge retry new o s) found
            ∙ ap (λ b. (if b then add_organization retry new else merge_and_commit same new) s)
                numbers
            ∙ ap (λ r. elim (r.0) [ some row ↦ (ok row, r.1) | none ↦ retry r.1 ])
                (commit_accepted new s storable),
        IsIn-append same t.rows (make t.next_id new ∷ [])
            (interfere-IsIn s.concurrent s same known),
        IsIn-last (make t.next_id new) t.rows,
      )
