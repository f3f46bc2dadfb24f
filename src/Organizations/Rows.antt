-- ===== src/Organizations/Rows.antt =====
-- The rows of the table of organizations: what stays when others are added or one is changed.
use mathlib.Core.Option.{none-ne-some, some-injective}
use svp_harvester.Prelude.{
  subst, cond, Bool, true, false, ◌&&◌, none, some, List, [], ◌∷◌, ◌++◌, filter, any, string_eq,
  nat_eq, if◌then◌else◌, ◌≡◌, refl, sym, ap, ◌∙◌, ◌⊎◌, inl, inr, Bool-cases, path→eq,
}
use svp_harvester.Tables.{add, first, commit, interfere, insert_all, insert, add}
use svp_harvester.Organizations.{
  NewOrganization, Organization, Organizations, make, is_given, is_refused, update_row,
}

module _ {A : Type 0} where
  -- An element of a list.
  abbrev pub IsIn : A → List A → Type 0
  IsIn a [] = ⊥
  IsIn a (x ∷ xs) = (x ≡ a) ⊎ IsIn a xs

  pub IsIn-append : (a : A) (xs ys : List A) → IsIn a xs → IsIn a (xs ++ ys)
  IsIn-append a [] ys h = absurd h
  IsIn-append a (x ∷ xs) ys (inl e) = inl e
  IsIn-append a (x ∷ xs) ys (inr h) = inr (IsIn-append a xs ys h)

  pub IsIn-last : (a : A) (xs : List A) → IsIn a (xs ++ a ∷ [])
  IsIn-last a [] = inl refl
  IsIn-last a (x ∷ xs) = inr (IsIn-last a xs)

  pub first-IsIn :
      (p : A → Bool) (xs : List A) (a : A) → first (filter p xs) ≡ some a → IsIn a xs × (p a ≡ true)
  first-IsIn p [] a h = absurd (none-ne-some a h)
  first-IsIn p (x ∷ xs) a h = elim (Bool-cases (p x)) [
    | inl hit ↦
        let its =
          some-injective x a
            (subst (λ b. first (cond b (x ∷ filter p xs) (filter p xs)) ≡ some a) hit h) in
        (inl its, sym (ap p its) ∙ hit)
    | inr miss ↦
        let later =
          first-IsIn p xs a
            (subst (λ b. first (cond b (x ∷ filter p xs) (filter p xs)) ≡ some a) miss h) in
        (inr later.0, later.1)
  ]

-- The rows stay while other processes insert theirs.
pub insert-IsIn :
    (new : NewOrganization) (s : Organizations) (row : Organization)
    → IsIn row s.rows
    → IsIn row (insert make is_refused new s).rows
unfolding insert
insert-IsIn new s row h = elim (Bool-cases (is_refused new s.rows)) [
  | inl refused ↦ rw refused h
  | inr accepted ↦ rw accepted (IsIn-append row s.rows (make s.next_id new ∷ []) h)
]

pub insert_all-IsIn :
    (news : List NewOrganization) (s : Organizations) (row : Organization)
    → IsIn row s.rows
    → IsIn row (insert_all make is_refused news s).rows
unfolding insert_all
insert_all-IsIn [] s row h = h
insert_all-IsIn (new ∷ news) s row h =
    insert_all-IsIn news (insert make is_refused new s) row (insert-IsIn new s row h)

pub interfere-IsIn :
    (news : List (List NewOrganization)) (s : Organizations) (row : Organization)
    → IsIn row s.rows
    → IsIn row (interfere make is_refused news s).rows
unfolding interfere
interfere-IsIn [] s row h = h
interfere-IsIn (news ∷ later) s row h = insert_all-IsIn news (record s { concurrent = later }) row h

pub update_row-IsIn :
    (changed row : Organization) (rows : List Organization)
    → row.id ≡ changed.id
    → IsIn row rows
    → IsIn changed (update_row changed rows)
update_row-IsIn changed row [] same h = absurd h
update_row-IsIn changed row (x ∷ rows) same (inl e) =
    inl (ap (λ b. if b then changed else x) (path→eq x.id changed.id (ap (λ r. r.id) e ∙ same)))
update_row-IsIn changed row (x ∷ rows) same (inr h) = inr (update_row-IsIn changed row rows same h)

pub any-never : (rows : List Organization) → any (λ row. false) rows ≡ false
any-never [] = refl
any-never (row ∷ rows) = any-never rows

-- What the columns demand.
abbrev pub IsStorable : NewOrganization → Type 0
IsStorable new = (is_given new.source && is_given new.name) ≡ true

pub accepted :
    (new : NewOrganization) (rows : List Organization)
    → IsStorable new
    → is_refused new rows ≡ false
accepted new rows h = rw (h, any-never rows) refl

pub commit_accepted :
    (new : NewOrganization) (s : Organizations)
    → IsStorable new
    → let t = interfere make is_refused s.concurrent s in
      commit make is_refused new s ≡ (some (make t.next_id new), add make is_refused new t)
unfolding commit
commit_accepted new s storable =
    let t = interfere make is_refused s.concurrent s in
    ap (λ b. if b then (none, t) else (some (make t.next_id new), add make is_refused new t))
      (accepted new t.rows storable)
