-- ===== src/Publications/Journals.antt =====
-- `_get_or_create_journal` of app/harvesters/abstract_references_converter.py,
-- app/db/models/journal.py, app/db/daos/journal_dao.py and
-- app/services/journal/journal_data_class.py. The table has no constraint over several rows.
use svp_harvester.Prelude.{
  ℕ, suc, String, Bool, true, false, ◌&&◌, ◌||◌, Option, none, some, List, [], ◌∷◌, ◌++◌, filter,
  any, contains, ◌==◌, string_eq, option_eq, ◌≡◌, refl, ap, ◌∙◌, path→eq, if◌then◌else◌,
  filter-append, filter-nil,
}
use svp_harvester.Prelude.Action.{Outcome, ok, raised, Action}
use svp_harvester.Harvesting.Model.{Exception}
use svp_harvester.Harvesting.Converter.{other_error}
use svp_harvester.Tables.Steps.{attempt_of_made, attempt_of_raised}
use svp_harvester.Tables.{
  Store, first, one_or_none, get_or_create, commit, interfere, insert_all, insert,
}

pub record JournalInformations : Type 0 where
  pub source : String
  pub source_identifier : String
  pub eissn : List String
  pub issn : List String
  pub issn_l : Option String
  pub publisher : Option String
  pub titles : List String

pub record Journal : Type 0 where
  pub id : ℕ
  pub source : String
  pub source_identifier : String
  pub eissn : List String
  pub issn : List String
  pub issn_l : Option String
  pub publisher : Option String
  pub titles : List String

abbrev pub Journals : Type 0
Journals = Store JournalInformations Journal

abbrev pub make : ℕ → JournalInformations → Journal
make id new = record {
  id = id;
  source = new.source;
  source_identifier = new.source_identifier;
  eissn = new.eissn;
  issn = new.issn;
  issn_l = new.issn_l;
  publisher = new.publisher;
  titles = new.titles;
}

-- The filter of the query: an ISSN, an electronic ISSN or the linking ISSN in common.
abbrev pub shares_issn : JournalInformations → Journal → Bool
shares_issn new row =
    any (contains row.issn) new.issn
    || (any (contains row.eissn) new.eissn
        || elim new.issn_l [ none ↦ false | some issn_l ↦ row.issn_l == some issn_l ])

abbrev pub is_empty {ℓ} : {A : Type ℓ} → List A → Bool
is_empty [] = true
is_empty (x ∷ xs) = false

-- `if not issn and not eissn and issn_l is None`
abbrev pub has_no_issn : JournalInformations → Bool
has_no_issn new = is_empty new.issn && (is_empty new.eissn && new.issn_l == none)

-- `get_journal_by_source_issn_or_eissn_or_issn_l`
unfoldable pub get_journal_by_issn : JournalInformations → List Journal → Option Journal
get_journal_by_issn new rows =
    if has_no_issn new
    then none
    else first (filter (λ row. row.source == new.source && shares_issn new row) rows)

abbrev pub has_identifier_of : JournalInformations → Journal → Bool
has_identifier_of new row =
    row.source == new.source && row.source_identifier == new.source_identifier

-- `get_journal_by_source_identifier_and_source`
unfoldable pub get_journal_by_source_identifier :
    JournalInformations → List Journal → Outcome Exception (Option Journal)
get_journal_by_source_identifier new rows = one_or_none (filter (has_identifier_of new) rows)

abbrev pub multiple_rows : Exception
multiple_rows = other_error "Multiple rows were found when one or none was required"

-- The two look-ups in their order.
unfoldable pub find_journal :
    JournalInformations → List Journal → Outcome Exception (Option Journal)
find_journal new rows = elim (get_journal_by_issn new rows) [
  | some journal ↦ ok (some journal)
  | none ↦ get_journal_by_source_identifier new rows
]

abbrev pub refuses_none : JournalInformations → List Journal → Bool
refuses_none new rows = false

-- `_get_or_create_journal`
unfoldable pub get_or_create_journal : JournalInformations → Action Journals Exception Journal
get_or_create_journal = get_or_create make refuses_none find_journal

module _ (new : JournalInformations) (no_issn : has_no_issn new ≡ true) where
  -- Without an ISSN, a journal is looked up by its source identifier only.
  find_journal-no_issn :
      (rows : List Journal)
      → find_journal new rows ≡ one_or_none (filter (has_identifier_of new) rows)
  unfolding find_journal get_journal_by_issn get_journal_by_source_identifier
  find_journal-no_issn rows =
      rw (find_journal, get_journal_by_issn, no_issn, get_journal_by_source_identifier) refl

  made_match : (id : ℕ) → has_identifier_of new (make id new) ≡ true
  made_match id =
      rw
        (
          path→eq new.source new.source refl,
          path→eq new.source_identifier new.source_identifier refl,
        )
        refl

  abbrev both : ℕ → List Journal → List Journal
  both id rows = (rows ++ make id new ∷ []) ++ make (suc id) new ∷ []

  filter-both :
      (id : ℕ) (rows : List Journal)
      → any (has_identifier_of new) rows ≡ false
      → filter (has_identifier_of new) (both id rows) ≡ make id new ∷ make (suc id) new ∷ []
  filter-both id rows h =
      let p = has_identifier_of new in
      filter-append p (rows ++ make id new ∷ []) (make (suc id) new ∷ [])
      ∙ rw (filter-append p rows (make id new ∷ []), filter-nil p rows h) (rw (made_match id) refl)

  commit-raced :
      (s : Journals)
      → s.concurrent ≡ (new ∷ []) ∷ []
      → commit make refuses_none new s ≡ (
        some (make (suc s.next_id) new),
        record { rows = both s.next_id s.rows; next_id = suc (suc s.next_id); concurrent = [] },
      )
  unfolding commit interfere insert_all insert
  commit-raced s race = rw race refl

  raced :
      (s : Journals)
      → s.concurrent ≡ (new ∷ []) ∷ []
      → any (has_identifier_of new) s.rows ≡ false
      → get_or_create_journal new s ≡ (
        ok (make (suc s.next_id) new),
        record { rows = both s.next_id s.rows; next_id = suc (suc s.next_id); concurrent = [] },
      )
  unfolding get_or_create_journal get_or_create one_or_none
  raced s race h =
      attempt_of_made make refuses_none find_journal _ new s (make (suc s.next_id) new)
        (find_journal-no_issn s.rows ∙ ap one_or_none (filter-nil (has_identifier_of new) s.rows h))
        (ap (λ (x : Option Journal × Journals). x.0) (commit-raced s race))
      ∙ ap (λ (x : Option Journal × Journals). (ok (make (suc s.next_id) new), x.1))
          (commit-raced s race)

  ambiguous :
      (s : Journals) (row other : Journal)
      → filter (has_identifier_of new) s.rows ≡ row ∷ other ∷ []
      → get_or_create_journal new s ≡ (raised multiple_rows, s)
  unfolding get_or_create_journal get_or_create one_or_none
  ambiguous s row other h =
      attempt_of_raised make refuses_none find_journal _ new s multiple_rows
        (find_journal-no_issn s.rows ∙ ap one_or_none h)

pub get_or_create_journal-raced :
    (new : JournalInformations) (s : Journals)
    → has_no_issn new ≡ true
    → any (has_identifier_of new) s.rows ≡ false
    → s.concurrent ≡ (new ∷ []) ∷ []
    → let once = get_or_create_journal new s in
      (once.0 ≡ ok (make (suc s.next_id) new))
      × (filter (has_identifier_of new) once.1.rows
          ≡ make s.next_id new ∷ make (suc s.next_id) new ∷ [])
      × (get_or_create_journal new once.1 ≡ (raised multiple_rows, once.1))
get_or_create_journal-raced new s no_issn fresh race =
    let e = raced new no_issn s race fresh in
    let two =
      ap (λ (x : Outcome Exception Journal × Journals). filter (has_identifier_of new) x.1.rows) e
      ∙ filter-both new no_issn s.next_id s.rows fresh in
    (
      ap (λ (x : Outcome Exception Journal × Journals). x.0) e,
      two,
      ambiguous new no_issn (get_or_create_journal new s).1 (make s.next_id new)
          (make (suc s.next_id) new) two,
    )
