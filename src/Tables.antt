-- ===== src/Tables.antt =====
-- The tables of related objects, and the pattern that the `_get_or_create_…` methods of
-- app/harvesters/abstract_references_converter.py share: look up, insert, and look up again once
-- if the commit violates a constraint because another process was faster.
pub mod Steps
pub mod Race
use svp_harvester.Prelude.{
  ℕ, suc, String, Bool, true, Option, none, some, List, [], ◌∷◌, ◌++◌, find?, if◌then◌else◌, not,
  ◌||◌, any,
}
use svp_harvester.Prelude.Action.{Outcome, ok, raised, Action, raise}
use svp_harvester.Harvesting.Model.{Exception}
use svp_harvester.Harvesting.Converter.{other_error}

-- A table with its sequence of ids. `concurrent` lists, for each coming commit of this process,
-- what the other processes insert between its look-up and that commit.
pub record Store (New Row : Type 0) : Type 0 where
  pub rows : List Row
  pub next_id : ℕ
  pub concurrent : List (List New)

-- `Result.one_or_none`
unfoldable pub one_or_none : {Row : Type 0} → List Row → Outcome Exception (Option Row)
one_or_none [] = ok none
one_or_none (row ∷ []) = ok (some row)
one_or_none (row ∷ other ∷ rows) =
    raised (other_error "Multiple rows were found when one or none was required")

-- `Result.first` and `scalar`, in the order of the table.
abbrev pub first : {Row : Type 0} → List Row → Option Row
first [] = none
first (row ∷ rows) = some row

-- The constraints of a table: columns that may not be null, and one row per key.
abbrev pub refuses : {New Row : Type 0} → (New → Row → Bool) → (New → Bool) → New → List Row → Bool
refuses matches is_valid new rows = not (is_valid new) || any (matches new) rows

module _ {New Row : Type 0} (make : ℕ → New → Row) (is_refused : New → List Row → Bool) where
  abbrev pub add : New → Store New Row → Store New Row
  add new s = record s { rows = s.rows ++ make s.next_id new ∷ []; next_id = suc s.next_id }

  -- An insert of another process, which the constraints of the table may refuse.
  unfoldable pub insert : New → Store New Row → Store New Row
  insert new s = if is_refused new s.rows then s else add new s

  unfoldable pub insert_all : List New → Store New Row → Store New Row
  insert_all [] s = s
  insert_all (new ∷ news) s = insert_all news (insert new s)

  unfoldable pub interfere : List (List New) → Store New Row → Store New Row
  interfere [] s = s
  interfere (news ∷ later) s = insert_all news (record s { concurrent = later })

  -- `session.add(new)` and `session.commit()`: the row, or an `IntegrityError`.
  unfoldable pub commit : New → Store New Row → Option Row × Store New Row
  commit new s =
      let t = interfere s.concurrent s in
      if is_refused new t.rows then (none, t) else (some (make t.next_id new), add new t)

  module _ (find : New → List Row → Outcome Exception (Option Row)) where
    -- One call, where `retry` is what an `IntegrityError` leads to.
    unfoldable pub attempt :
        Action (Store New Row) Exception Row → New → Action (Store New Row) Exception Row
    attempt retry new s = elim (find new s.rows) [
      | raised error ↦ (raised error, s)
      | ok (some row) ↦ (ok row, s)
      | ok none ↦ let r = commit new s in elim (r.0) [ some row ↦ (ok row, r.1) | none ↦ retry r.1 ]
    ]

    -- The second call, with `new_attempt`, asserts that no violation occurs.
    unfoldable pub get_or_create : New → Action (Store New Row) Exception Row
    get_or_create new =
        attempt (attempt (raise (other_error "violation cannot occur twice")) new) new
