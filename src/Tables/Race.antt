-- ===== src/Tables/Race.antt =====
-- Two processes that create the same row: the retry of the `_get_or_create_…` methods of
-- app/harvesters/abstract_references_converter.py finds the row of the other one.
use svp_harvester.Prelude.{
  ℕ, suc, ◌≤◌, Bool, true, false, cond, some, List, [], ◌∷◌, ◌++◌, filter, any, length, ◌≡◌, refl,
  arith, Bool-cases, inl, inr, false≢true, ◌⊎◌, append-nil, ◌∙◌, ap, subst, sym, filter-append,
  filter-nil,
}
use svp_harvester.Prelude.Action.{ok}
use svp_harvester.Tables.Steps.{attempt_of_found, attempt_of_made, attempt_of_refused}
use svp_harvester.Tables.{
  refuses, Store, one_or_none, add, insert, insert_all, interfere, Outcome, commit, Exception, none,
  Option, attempt, get_or_create, Action, raise, other_error,
}

module _ {New Row : Type 0} (matches : New → Row → Bool) where
  -- No two rows share a key.
  abbrev pub IsUnique : List Row → Type 0
  IsUnique rows = (new : New) → length (filter (matches new) rows) ≤ 1

  -- What a call returns: the only row with the key of `new`.
  pub record IsStored (new : New) (r : Outcome Exception Row × Store New Row) : Type 0 where
    pub row : Row
    pub returned : r.0 ≡ ok row
    pub only : filter (matches new) r.1.rows ≡ row ∷ []
    pub unique : IsUnique r.1.rows

  filter-ext :
      (p q : Row → Bool) → ((x : Row) → p x ≡ q x) → (xs : List Row) → filter p xs ≡ filter q xs
  filter-ext p q h [] = refl
  filter-ext p q h (x ∷ xs) = rw (h x, filter-ext p q h xs)

  length_nil : (xs : List Row) → suc (length xs) ≤ 1 → xs ≡ []
  length_nil [] h = refl
  length_nil (x ∷ xs) h = absurd (omega arith)

  filter-one :
      (p : Row → Bool) (rows : List Row)
      → length (filter p rows) ≤ 1
      → any p rows ≡ true
      → (row : Row) × (filter p rows ≡ row ∷ [])
  filter-one p [] bound h = absurd (false≢true h)
  filter-one p (x ∷ xs) bound h = go (Bool-cases (p x)) (filter-one p xs)
    where
      go :
          (p x ≡ true) ⊎ (p x ≡ false)
          → (length (filter p xs) ≤ 1 → any p xs ≡ true → (row : Row) × (filter p xs ≡ row ∷ []))
          → (row : Row) × (cond (p x) (x ∷ filter p xs) (filter p xs) ≡ row ∷ [])
      go (inl yes_p) ih = (x, rw (yes_p, length_nil (filter p xs) (ground (arith, bound, yes_p))))
      go (inr no_p) ih =
          let r = ih (ground (arith, bound, no_p)) (ground (arith, h, no_p)) in
          (r.0, rw (no_p, r.1))

  one_or_none-one :
      (p : Row → Bool) (rows : List Row) (row : Row)
      → filter p rows ≡ row ∷ []
      → one_or_none (filter p rows) ≡ ok (some row)
  unfolding one_or_none
  one_or_none-one p rows row h = rw h

  module _ (make : ℕ → New → Row) (is_valid : New → Bool) where
    -- A row has the key it is made for, and a row has no key but that one.
    pub record IsKeyed : Type 0 where
      pub made : (id : ℕ) (new : New) → is_valid new ≡ true → matches new (make id new) ≡ true
      pub same :
          (id : ℕ) (new other : New) (row : Row)
          → matches other (make id new) ≡ true
          → matches other row ≡ matches new row

    module _ (keyed : IsKeyed) where
      add-IsUnique :
          (new : New) (s : Store New Row)
          → IsUnique s.rows
          → any (matches new) s.rows ≡ false
          → IsUnique (add make (refuses matches is_valid) new s).rows
      add-IsUnique new s unique fresh other = go (Bool-cases (matches other (make s.next_id new)))
        where
          go :
              (matches other (make s.next_id new) ≡ true)
                ⊎ (matches other (make s.next_id new) ≡ false)
              → length (filter (matches other) (s.rows ++ make s.next_id new ∷ [])) ≤ 1
          go (inl hit) =
              rw
                (
                  filter-append (matches other) s.rows (make s.next_id new ∷ []),
                  filter-ext (matches other) (matches new)
                      (λ row. keyed.same s.next_id new other row hit) s.rows,
                  filter-nil (matches new) s.rows fresh,
                  hit,
                )
                (omega arith)
          go (inr miss) =
              rw (filter-append (matches other) s.rows (make s.next_id new ∷ []), miss, append-nil)
                (unique other)

      insert-IsUnique :
          (new : New) (s : Store New Row)
          → IsUnique s.rows
          → IsUnique (insert make (refuses matches is_valid) new s).rows
      unfolding insert
      insert-IsUnique new s unique = go (Bool-cases (refuses matches is_valid new s.rows))
        where
          go :
              (refuses matches is_valid new s.rows ≡ true)
                ⊎ (refuses matches is_valid new s.rows ≡ false)
              → IsUnique
                  (cond
                    (refuses matches is_valid new s.rows)
                    s
                    (add make (refuses matches is_valid) new s)).rows
          go (inl refused) = rw refused unique
          go (inr allowed) = rw allowed (add-IsUnique new s unique (ground (arith, allowed)))

      insert_all-IsUnique :
          (news : List New) (s : Store New Row)
          → IsUnique s.rows
          → IsUnique (insert_all make (refuses matches is_valid) news s).rows
      unfolding insert_all
      insert_all-IsUnique [] s unique = unique
      insert_all-IsUnique (new ∷ news) s unique =
          insert_all-IsUnique news (insert make (refuses matches is_valid) new s)
            (insert-IsUnique new s unique)

      interfere-IsUnique :
          (news : List (List New)) (s : Store New Row)
          → IsUnique s.rows
          → IsUnique (interfere make (refuses matches is_valid) news s).rows
      unfolding interfere
      interfere-IsUnique [] s unique = unique
      interfere-IsUnique (news ∷ later) s unique =
          insert_all-IsUnique news (record s { concurrent = later }) unique

      -- What a commit leads to: the row is there now, or another one with its key was faster.
      commit_lem :
          (new : New) (s : Store New Row)
          → is_valid new ≡ true
          → IsUnique s.rows
          → ((row : Row) × ((commit make (refuses matches is_valid) new s).0 ≡ some row)
              × (filter (matches new) (commit make (refuses matches is_valid) new s).1.rows
                  ≡ row ∷ [])
              × IsUnique (commit make (refuses matches is_valid) new s).1.rows)
            ⊎ (((commit make (refuses matches is_valid) new s).0 ≡ none)
                × (any (matches new) (commit make (refuses matches is_valid) new s).1.rows ≡ true)
                × IsUnique (commit make (refuses matches is_valid) new s).1.rows)
      unfolding commit
      commit_lem new s valid unique =
          let t = interfere make (refuses matches is_valid) s.concurrent s in
          let t_unique = interfere-IsUnique s.concurrent s unique in
          go t t_unique (Bool-cases (any (matches new) t.rows))
        where
          Result : Option Row × Store New Row → Type 0
          Result r =
              ((row : Row) × (r.0 ≡ some row)
                × (filter (matches new) r.1.rows ≡ row ∷ [])
                × IsUnique r.1.rows)
              ⊎ ((r.0 ≡ none) × (any (matches new) r.1.rows ≡ true) × IsUnique r.1.rows)

          go :
              (t : Store New Row)
              → IsUnique t.rows
              → (any (matches new) t.rows ≡ true) ⊎ (any (matches new) t.rows ≡ false)
              → Result (
                  cond
                    (refuses matches is_valid new t.rows)
                    (none, t)
                    (some (make t.next_id new), add make (refuses matches is_valid) new t))
          go t u (inl taken) = rw (valid, taken) (inr (refl, taken, u))
          go t u (inr fresh) =
              rw (valid, fresh)
                (inl (
                  make t.next_id new,
                  refl,
                  rw
                      (
                        filter-append (matches new) t.rows (make t.next_id new ∷ []),
                        filter-nil (matches new) t.rows fresh,
                        keyed.made t.next_id new valid,
                      )
                      refl,
                  add-IsUnique new t u fresh,
                ))

      -- A look-up that returns the only row with the key, if there is one.
      module _ (find : New → List Row → Outcome Exception (Option Row))
          (finds : (new : New) (rows : List Row)
            → length (filter (matches new) rows) ≤ 1
            → find new rows ≡ one_or_none (filter (matches new) rows)) where
        abbrev call :
            Action (Store New Row) Exception Row → New → Action (Store New Row) Exception Row
        call = attempt make (refuses matches is_valid) find

        attempt-found :
            (retry : Action (Store New Row) Exception Row) (new : New) (s : Store New Row)
            → IsUnique s.rows
            → any (matches new) s.rows ≡ true
            → IsStored new (call retry new s)
        attempt-found retry new s unique hit =
            let one = filter-one (matches new) s.rows (unique new) hit in
            let found =
              finds new s.rows (unique new) ∙ one_or_none-one (matches new) s.rows one.0 one.1 in
            subst (IsStored new)
              (sym (attempt_of_found make (refuses matches is_valid) find retry new s one.0 found))
              record { row = one.0; returned = refl; only = one.1; unique = unique }

        attempt-missing :
            (retry : Action (Store New Row) Exception Row) (new : New) (s : Store New Row)
            → is_valid new ≡ true
            → IsUnique s.rows
            → any (matches new) s.rows ≡ false
            → ((t : Store New Row)
                → IsUnique t.rows
                → any (matches new) t.rows ≡ true
                → IsStored new (retry t))
            → IsStored new (call retry new s)
        unfolding one_or_none
        attempt-missing retry new s valid unique miss again =
            let missing =
              finds new s.rows (unique new)
              ∙ ap one_or_none (filter-nil (matches new) s.rows miss) in
            elim (commit_lem new s valid unique) [
              | inl (row, made, only, u) ↦
                  subst (IsStored new)
                    (sym (
                      attempt_of_made make (refuses matches is_valid) find retry new s row missing
                        made))
                    record { row = row; returned = refl; only = only; unique = u }
              | inr (refused, taken, u) ↦
                  subst (IsStored new)
                    (sym (
                      attempt_of_refused make (refuses matches is_valid) find retry new s missing
                        refused))
                    (again (commit make (refuses matches is_valid) new s).1 u taken)
            ]

        -- The assertion that a violation occurs once only never fails.
        pub get_or_create-IsStored :
            (new : New) (s : Store New Row)
            → is_valid new ≡ true
            → IsUnique s.rows
            → IsStored new (get_or_create make (refuses matches is_valid) find new s)
        unfolding get_or_create
        get_or_create-IsStored new s valid unique = elim (Bool-cases (any (matches new) s.rows)) [
          | inl hit ↦
              attempt-found
                (attempt make (refuses matches is_valid) find
                  (raise (other_error "violation cannot occur twice")) new)
                new s unique hit
          | inr miss ↦
              attempt-missing
                (attempt make (refuses matches is_valid) find
                  (raise (other_error "violation cannot occur twice")) new)
                new s valid unique miss
                (attempt-found (raise (other_error "violation cannot occur twice")) new)
        ]
