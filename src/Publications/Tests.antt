-- ===== src/Publications/Tests.antt =====
-- Sample publications: the `_get_or_create_…` methods of
-- app/harvesters/abstract_references_converter.py at concrete inputs.
use svp_harvester.Prelude.{none, some, [], ◌∷◌, ◌≡◌, refl, arith, option_eq, string_eq, filter}
use svp_harvester.Tables.{Store}
use svp_harvester.Tables.Race.{IsUnique}
use svp_harvester.Prelude.Action.{ok, raised}
use svp_harvester.Publications.DocumentTypes.{NewDocumentType, DocumentType, has_uri_of}
use svp_harvester.Publications.Issues.{
  IssueInformations, Issue, Issues, has_key_of, get_or_create_issue, get_or_create_issue-IsStored,
}
use svp_harvester.Publications.Journals.{
  JournalInformations, Journals, has_identifier_of, get_or_create_journal, multiple_rows,
  get_or_create_journal-raced, make as make_journal,
}
use svp_harvester.Publications.Books.{
  BookInformations, make, update_book, IsUnknownTitle, update_book-IsUnknownTitle,
}

abbrev thesis : NewDocumentType
thesis = record { uri = "thesis"; label = none }

abbrev no_types : Store NewDocumentType DocumentType
no_types = record { rows = []; next_id = 0; concurrent = (thesis ∷ []) ∷ [] }

no_types-IsUnique : IsUnique has_uri_of no_types.rows
no_types-IsUnique new = omega arith

abbrev book : BookInformations
book = record {
  source = "hal";
  title = some "Old";
  isbn10 = some "1";
  isbn13 = none;
  publisher = none;
}

abbrev retitled : BookInformations
retitled = record book { title = some "New" }

update_book-IsUnknownTitle_example :
    (update_book (make 0 book) retitled ≡ record (make 0 book) { title_variants = some "Old" ∷ [] })
    × IsUnknownTitle (update_book (make 0 book) retitled) retitled
unfolding option_eq string_eq
update_book-IsUnknownTitle_example =
    update_book-IsUnknownTitle (make 0 book) retitled
      record { other_title = refl; no_variant = refl }

abbrev issue : IssueInformations
issue = record {
  source = "hal";
  source_identifier = "1";
  journal_id = 3;
  number = [];
  volume = none;
  date = none;
  rights = none;
  titles = [];
}

abbrev no_issues : Issues
no_issues = record { rows = []; next_id = 0; concurrent = (issue ∷ []) ∷ [] }

no_issues-IsUnique : IsUnique has_key_of no_issues.rows
no_issues-IsUnique new = omega arith

get_or_create_issue-IsStored_example :
    let r = get_or_create_issue issue no_issues in
    (found : Issue) × (r.0 ≡ ok record found { journal_id = 3 })
    × (filter (has_key_of issue) r.1.rows ≡ found ∷ [])
get_or_create_issue-IsStored_example =
    get_or_create_issue-IsStored issue no_issues no_issues-IsUnique

abbrev journal : JournalInformations
journal = record {
  source = "hal";
  source_identifier = "1";
  eissn = [];
  issn = [];
  issn_l = none;
  publisher = none;
  titles = [];
}

abbrev no_journals : Journals
no_journals = record { rows = []; next_id = 0; concurrent = (journal ∷ []) ∷ [] }

get_or_create_journal-raced_example :
    let once = get_or_create_journal journal no_journals in
    (once.0 ≡ ok (make_journal 1 journal))
    × (filter (has_identifier_of journal) once.1.rows
        ≡ make_journal 0 journal ∷ make_journal 1 journal ∷ [])
    × (get_or_create_journal journal once.1 ≡ (raised multiple_rows, once.1))
unfolding option_eq
get_or_create_journal-raced_example = get_or_create_journal-raced journal no_journals refl refl refl
