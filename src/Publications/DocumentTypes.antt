-- ===== src/Publications/DocumentTypes.antt =====
-- `_get_or_create_document_type_by_uri` of app/harvesters/abstract_references_converter.py,
-- app/db/models/document_type.py and app/db/daos/document_type_dao.py.
use svp_harvester.Tables.Steps.{first-one_or_none}
use svp_harvester.Prelude.{
  ℕ, String, Bool, true, Option, List, filter, ◌==◌, string_eq, refl, sym, ap, path→eq, eq→path,
}
use svp_harvester.Prelude.Action.{Outcome, ok, Action}
use svp_harvester.Harvesting.Model.{Exception}
use svp_harvester.Tables.{Store, first, refuses, get_or_create}
use svp_harvester.Tables.Race.{IsUnique, IsKeyed, IsStored, get_or_create-IsStored}

pub record NewDocumentType : Type 0 where
  pub uri : String
  pub label : Option String

pub record DocumentType : Type 0 where
  pub id : ℕ
  pub uri : String
  pub label : Option String

abbrev pub make : ℕ → NewDocumentType → DocumentType
make id new = record { id = id; uri = new.uri; label = new.label }

-- The unique index on `uri`.
abbrev pub has_uri_of : NewDocumentType → DocumentType → Bool
has_uri_of new row = row.uri == new.uri

abbrev pub is_complete : NewDocumentType → Bool
is_complete new = true

-- `get_document_type_by_uri`
unfoldable pub get_document_type_by_uri :
    NewDocumentType → List DocumentType → Outcome Exception (Option DocumentType)
get_document_type_by_uri new rows = ok (first (filter (has_uri_of new) rows))

-- `_get_or_create_document_type_by_uri`
unfoldable pub get_or_create_document_type_by_uri :
    NewDocumentType → Action (Store NewDocumentType DocumentType) Exception DocumentType
get_or_create_document_type_by_uri =
    get_or_create make (refuses has_uri_of is_complete) get_document_type_by_uri

document_types-IsKeyed : IsKeyed has_uri_of make is_complete
document_types-IsKeyed = record {
  made = λ id new valid. path→eq new.uri new.uri refl;
  same = λ id new other row h. ap (λ uri. row.uri == uri) (sym (eq→path new.uri other.uri h));
}

-- From a table with one document type per URI at most: whatever document types other processes
-- insert around the commits, a call returns a document type and never fails, and the table then
-- holds it as the only one with its URI.
pub get_or_create_document_type_by_uri-IsStored :
    (new : NewDocumentType) (s : Store NewDocumentType DocumentType)
    → IsUnique has_uri_of s.rows
    → IsStored has_uri_of new (get_or_create_document_type_by_uri new s)
unfolding get_or_create_document_type_by_uri
get_or_create_document_type_by_uri-IsStored new s =
    get_or_create-IsStored has_uri_of make is_complete document_types-IsKeyed
      get_document_type_by_uri
      (λ n rows. unfold get_document_type_by_uri in first-one_or_none (filter (has_uri_of n) rows))
      new s refl
