-- ===== src/Tables/Steps.antt =====
-- The three ways that one call of a `_get_or_create_…` method of
-- app/harvesters/abstract_references_converter.py goes.
use svp_harvester.Prelude.{ℕ, Option, none, some, List, [], ◌∷◌, length, ◌≤◌, refl, ◌≡◌, arith}
use svp_harvester.Tables.{first, one_or_none, Store, commit, attempt, Bool}
use svp_harvester.Prelude.Action.{Outcome, ok, raised, Action}
use svp_harvester.Harvesting.Model.{Exception}

module _ {New Row : Type 0} (make : ℕ → New → Row) (is_refused : New → List Row → Bool)
    (find : New → List Row → Outcome Exception (Option Row)) where
  pub attempt_of_found :
      (retry : Action (Store New Row) Exception Row) (new : New) (s : Store New Row) (row : Row)
      → find new s.rows ≡ ok (some row)
      → attempt make is_refused find retry new s ≡ (ok row, s)
  unfolding attempt
  attempt_of_found retry new s row found = ground (arith, found)

  pub attempt_of_made :
      (retry : Action (Store New Row) Exception Row) (new : New) (s : Store New Row) (row : Row)
      → find new s.rows ≡ ok none
      → (commit make is_refused new s).0 ≡ some row
      → attempt make is_refused find retry new s ≡ (ok row, (commit make is_refused new s).1)
  unfolding attempt
  attempt_of_made retry new s row missing made = ground (arith, missing, made)

  pub attempt_of_refused :
      (retry : Action (Store New Row) Exception Row) (new : New) (s : Store New Row)
      → find new s.rows ≡ ok none
      → (commit make is_refused new s).0 ≡ none
      → attempt make is_refused find retry new s ≡ retry (commit make is_refused new s).1
  unfolding attempt
  attempt_of_refused retry new s missing refused = ground (arith, missing, refused)

  pub attempt_of_raised :
      (retry : Action (Store New Row) Exception Row) (new : New) (s : Store New Row)
      (error : Exception)
      → find new s.rows ≡ raised error
      → attempt make is_refused find retry new s ≡ (raised error, s)
  unfolding attempt
  attempt_of_raised retry new s error e = ground (arith, e)

-- Where a key is unique, `first` and `one_or_none` find the same.
pub first-one_or_none :
    {Row : Type 0} (rows : List Row) → length rows ≤ 1 → ok (first rows) ≡ one_or_none rows
unfolding one_or_none
first-one_or_none [] h = refl
first-one_or_none (row ∷ []) h = refl
first-one_or_none (row ∷ other ∷ rows) h = absurd (omega arith)
