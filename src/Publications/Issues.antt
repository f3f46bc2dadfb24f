-- ===== src/Publications/Issues.antt =====
-- `_get_or_create_issue` of app/harvesters/abstract_references_converter.py,
-- app/db/models/issue.py, app/db/daos/issue_dao.py and app/services/issue/issue_data_class.py.
use svp_harvester.Prelude.{
  ℕ, String, Bool, true, ◌&&◌, Option, List, filter, ◌==◌, string_eq, ◌≡◌, refl, ap, ◌∙◌, path→eq,
  eq→path, and_left, and_right, ◌∷◌, [],
}
use svp_harvester.Prelude.Action.{Outcome, ok, Action, pure, ◌>>=◌, bind_of_ok}
use svp_harvester.Harvesting.Model.{Exception}
use svp_harvester.Tables.{Store, one_or_none, refuses, get_or_create}
use svp_harvester.Tables.Race.{IsUnique, IsKeyed, get_or_create-IsStored}

pub record IssueInformations : Type 0 where
  pub source : String
  pub source_identifier : String
  pub journal_id : ℕ
  pub number : List String
  pub volume : Option String
  pub date : Option String
  pub rights : Option String
  pub titles : List String

pub record Issue : Type 0 where
  pub id : ℕ
  pub source : String
  pub source_identifier : String
  pub journal_id : ℕ
  pub number : List String
  pub volume : Option String
  pub date : Option String
  pub rights : Option String
  pub titles : List String

abbrev pub Issues : Type 0
Issues = Store IssueInformations Issue

abbrev pub make : ℕ → IssueInformations → Issue
make id new = record {
  id = id;
  source = new.source;
  source_identifier = new.source_identifier;
  journal_id = new.journal_id;
  number = new.number;
  volume = new.volume;
  date = new.date;
  rights = new.rights;
  titles = new.titles;
}

-- `UniqueConstraint("source", "source_identifier")`
abbrev pub has_key_of : IssueInformations → Issue → Bool
has_key_of new row = row.source == new.source && row.source_identifier == new.source_identifier

abbrev pub is_complete : IssueInformations → Bool
is_complete new = true

-- `get_issue_by_source_and_source_identifier`
unfoldable pub get_issue_by_source_and_source_identifier :
    IssueInformations → List Issue → Outcome Exception (Option Issue)
get_issue_by_source_and_source_identifier new rows = one_or_none (filter (has_key_of new) rows)

abbrev pub stored_issue : IssueInformations → Action Issues Exception Issue
stored_issue =
    get_or_create make (refuses has_key_of is_complete) get_issue_by_source_and_source_identifier

-- `_get_or_create_issue`: an issue that is found gets the journal of the informations, and one that
-- is made has it.
unfoldable pub get_or_create_issue : IssueInformations → Action Issues Exception Issue
get_or_create_issue new = do
  issue ← stored_issue new
  pure record issue { journal_id = new.journal_id }

issues-IsKeyed : IsKeyed has_key_of make is_complete
issues-IsKeyed = record {
  made = λ id new valid.
      rw
        (
          path→eq new.source new.source refl,
          path→eq new.source_identifier new.source_identifier refl,
        )
        refl;
  same = λ id new other row h.
      rw
        (
          eq→path new.source other.source (and_left _ h),
          eq→path new.source_identifier other.source_identifier
              (and_right (new.source == other.source) h),
        )
        refl;
}

-- From a table with one issue per source and source identifier at most: whatever issues other
-- processes insert around the commits, a call succeeds. It returns the stored issue of that source
-- and source identifier, of which there is one then, with the journal of the informations.
pub get_or_create_issue-IsStored :
    (new : IssueInformations) (s : Issues)
    → IsUnique has_key_of s.rows
    → let r = get_or_create_issue new s in
      (issue : Issue) × (r.0 ≡ ok record issue { journal_id = new.journal_id })
      × (filter (has_key_of new) r.1.rows ≡ issue ∷ [])
unfolding get_or_create_issue pure
get_or_create_issue-IsStored new s unique =
    let stored =
      get_or_create-IsStored has_key_of make is_complete issues-IsKeyed
        get_issue_by_source_and_source_identifier
        (λ n rows bound. unfold get_issue_by_source_and_source_identifier in refl) new s refl
        unique in
    let e =
      bind_of_ok (stored_issue new) (λ issue. pure record issue { journal_id = new.journal_id })
        (ap (λ (o : Outcome Exception Issue). (o, (stored_issue new s).1)) stored.returned) in
    (
      stored.row,
      ap (λ (r : Outcome Exception Issue × Issues). r.0) e,
      ap (λ (r : Outcome Exception Issue × Issues). filter (has_key_of new) r.1.rows) e
          ∙ stored.only,
    )
