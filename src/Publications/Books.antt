-- ===== src/Publications/Books.antt =====
-- `_get_or_create_book` and `_update_book` of app/harvesters/abstract_references_converter.py,
-- app/db/models/book.py, app/db/daos/book_dao.py and app/services/book/book_data_class.py.
use svp_harvester.Prelude.{
  ℕ, String, Bool, false, not, ◌&&◌, ◌||◌, Option, none, some, List, [], ◌∷◌, ◌++◌, filter, any,
  contains, ◌==◌, string_eq, option_eq, ◌≡◌, refl, sym, if◌then◌else◌, ℕ, subst, eq_sym,
  contains-append,
}
use svp_harvester.Prelude.Action.{Outcome, ok, Action, pure, ◌>>=◌}
use svp_harvester.Harvesting.Model.{Exception}
use svp_harvester.Tables.{Store, first, one_or_none, get_or_create}

pub record BookInformations : Type 0 where
  pub source : String
  pub title : Option String
  pub isbn10 : Option String
  pub isbn13 : Option String
  pub publisher : Option String

pub record Book : Type 0 where
  pub id : ℕ
  pub source : String
  pub title : Option String
  pub title_variants : List (Option String)
  pub isbn10 : Option String
  pub isbn13 : Option String
  pub publisher : Option String

abbrev pub Books : Type 0
Books = Store BookInformations Book

abbrev pub make : ℕ → BookInformations → Book
make id new = record {
  id = id;
  source = new.source;
  title = new.title;
  title_variants = [];
  isbn10 = new.isbn10;
  isbn13 = new.isbn13;
  publisher = new.publisher;
}

-- A text that Python takes for true: neither `None` nor empty.
abbrev pub is_given : Option String → Bool
is_given none = false
is_given (some text) = not (text == "")

-- `column == value` in SQL, which no null satisfies.
abbrev pub has_value : Option String → Option String → Bool
has_value (some a) (some b) = a == b
has_value _ _ = false

-- The two unique constraints of the table.
abbrev pub violates : BookInformations → Book → Bool
violates new row =
    row.source == new.source && (has_value row.isbn10 new.isbn10 || has_value row.isbn13 new.isbn13)

abbrev pub is_refused : BookInformations → List Book → Bool
is_refused new rows = any (violates new) rows

-- `get_books_by_isbn`: without an ISBN nothing is found.
unfoldable pub get_books_by_isbn : BookInformations → List Book → Option Book
get_books_by_isbn new rows = first (
    filter
      (λ row.
        row.source == new.source
        && ((is_given new.isbn10 && has_value row.isbn10 new.isbn10)
            || (is_given new.isbn13 && has_value row.isbn13 new.isbn13)))
      rows)

-- `get_books_by_title`
unfoldable pub get_books_by_title : BookInformations → List Book → Outcome Exception (Option Book)
get_books_by_title new rows =
    if is_given new.title
    then one_or_none
        (filter (λ row. has_value row.title new.title && row.source == new.source) rows)
    else ok none

unfoldable pub find_book : BookInformations → List Book → Outcome Exception (Option Book)
find_book new rows = elim (get_books_by_isbn new rows) [
  | some book ↦ ok (some book)
  | none ↦ get_books_by_title new rows
]

-- `_update_book`
unfoldable pub update_book : Book → BookInformations → Book
update_book book new =
    if not (book.title == new.title) && not (contains book.title_variants new.title)
    then record book { title_variants = book.title_variants ++ book.title ∷ [] }
    else book

-- `_get_or_create_book`: a book that is found is updated, which changes nothing for one that is made
-- from the informations.
unfoldable pub get_or_create_book : BookInformations → Action Books Exception Book
get_or_create_book new = do
  book ← get_or_create make is_refused find_book new
  pure (update_book book new)

-- A title that a book has neither as its title nor among its variants.
pub record IsUnknownTitle (book : Book) (new : BookInformations) : Type 0 where
  pub other_title : (new.title == book.title) ≡ false
  pub no_variant : contains book.title_variants new.title ≡ false

updated-unknown :
    (book : Book) (new : BookInformations)
    → IsUnknownTitle book new
    → update_book book new ≡ record book { title_variants = book.title_variants ++ book.title ∷ [] }
unfolding update_book
updated-unknown book new u =
    rw (update_book, eq_sym book.title new.title, u.other_title, u.no_variant) refl

-- For a book and informations with a title that is neither its title nor among its variants: the
-- update appends the old title to the variants and changes nothing else. The new title is still
-- unknown then, so that every further update with the same informations appends the old title again.
pub update_book-IsUnknownTitle :
    (book : Book) (new : BookInformations)
    → IsUnknownTitle book new
    → (update_book book new
        ≡ record book { title_variants = book.title_variants ++ book.title ∷ [] })
      × IsUnknownTitle (update_book book new) new
update_book-IsUnknownTitle book new u =
    let e = updated-unknown book new u in
    (
      e,
      subst (λ b. IsUnknownTitle b new) (sym e)
          record {
            other_title = u.other_title;
            no_variant =
                rw
                  (
                    contains-append book.title_variants (book.title ∷ []) new.title,
                    u.no_variant,
                    u.other_title,
                  )
                  refl;
          },
    )
