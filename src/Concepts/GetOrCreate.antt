-- ===== src/Concepts/GetOrCreate.antt =====
-- `_get_or_create_concept_by_uri` of app/harvesters/abstract_references_converter.py, with
-- `get_concept_by_uri` of app/db/daos/concept_dao.py. Of the table the concepts with a URI are kept: the
-- others are never found by one.
use svp_harvester.Concepts.{
  ConceptInformations, ConceptError, Environment, complete_information, dereferencing_error,
  unknown_authority, assertion_error, value_error,
}
use svp_harvester.Prelude.{
  ℕ, String, Bool, true, false, Option, none, some, List, [], ◌∷◌, filter, ◌==◌, string_eq,
}
use svp_harvester.Prelude.Action.{Outcome, ok, raised, Action}
use svp_harvester.Harvesting.Model.{Exception}
use svp_harvester.Harvesting.Converter.{other_error}
use svp_harvester.Tables.{Store, first, refuses, commit}

-- A label: its text, its language and whether it is preferred.
abbrev pub Label : Type 0
Label = String × Option String × Bool

pub record NewConcept : Type 0 where
  pub uri : String
  pub labels : List Label
  pub dereferenced : Bool

pub record Concept : Type 0 where
  pub id : ℕ
  pub uri : String
  pub labels : List Label
  pub dereferenced : Bool

abbrev pub Concepts : Type 0
Concepts = Store NewConcept Concept

abbrev pub make : ℕ → NewConcept → Concept
make id new = record {
  id = id;
  uri = new.uri;
  labels = new.labels;
  dereferenced = new.dereferenced;
}

-- The unique index on `uri`.
abbrev pub has_uri_of : NewConcept → Concept → Bool
has_uri_of new row = row.uri == new.uri

abbrev pub is_complete : NewConcept → Bool
is_complete new = true

-- `get_concept_by_uri`
unfoldable pub get_concept_by_uri : NewConcept → List Concept → Outcome Exception (Option Concept)
get_concept_by_uri new rows = ok (first (filter (has_uri_of new) rows))

abbrev pub uri_or_empty : Option String → String
uri_or_empty none = ""
uri_or_empty (some uri) = uri

abbrev pub exception : ConceptError → Exception
exception dereferencing_error = other_error "DereferencingError"
exception unknown_authority = other_error "UnknownAuthorityException"
exception assertion_error = other_error "AssertionError"
exception value_error = other_error "ValueError"

-- The concept that is made if dereferencing fails.
abbrev pub with_label : Option String → ConceptInformations → NewConcept
with_label none c = record { uri = uri_or_empty c.uri; labels = []; dereferenced = false }
with_label (some label) c = record {
  uri = uri_or_empty c.uri;
  labels = (label, c.language, true) ∷ [];
  dereferenced = false;
}

-- The result of `ConceptFactory.solve`, which marks what its solver answers as dereferenced.
abbrev pub solved :
    Outcome ConceptError NewConcept → ConceptInformations → Outcome ConceptError NewConcept
solved (ok new) c = ok (record new { dereferenced = true })
solved (raised dereferencing_error) c = ok (with_label c.label c)
solved (raised unknown_authority) c = raised unknown_authority
solved (raised assertion_error) c = raised assertion_error
solved (raised value_error) c = raised value_error

module _ (environment : Environment)
    (solve : ConceptInformations → Outcome ConceptError NewConcept) where
  abbrev pub Call : Type 0
  Call = ConceptInformations → Action Concepts Exception Concept

  -- The concept is committed; another attempt follows if the commit violates the constraint.
  abbrev pub create :
      Call
      → ConceptInformations
      → Outcome ConceptError NewConcept
      → Action Concepts Exception Concept
  create retry c (raised e) s = (raised (exception e), s)
  create retry c (ok new) s =
      let r = commit make (refuses has_uri_of is_complete) new s in
      elim (r.0) [ some row ↦ (ok row, r.1) | none ↦ retry c r.1 ]

  abbrev pub find_or_create :
      Call
      → ConceptInformations
      → Outcome Exception (Option Concept)
      → Action Concepts Exception Concept
  find_or_create retry c (raised e) s = (raised e, s)
  find_or_create retry c (ok (some row)) s = (ok row, s)
  find_or_create retry c (ok none) s = create retry c (solved (solve c) c) s

  -- One call, where `retry` is the call with `new_attempt`. The informations are completed in place.
  unfoldable pub attempt_by_uri :
      Call → Outcome ConceptError ConceptInformations → Action Concepts Exception Concept
  unfolding get_concept_by_uri
  attempt_by_uri retry (raised e) s = (raised (exception e), s)
  attempt_by_uri retry (ok c) s =
      find_or_create retry c (get_concept_by_uri (with_label none c) s.rows) s

  -- The assertion that a violation occurs once only.
  abbrev pub violated_again : Call
  violated_again c s = (raised (other_error "violation cannot occur twice"), s)

  abbrev pub second_call : Call
  second_call c = attempt_by_uri violated_again (complete_information environment c)

  unfoldable pub get_or_create_concept_by_uri : Call
  unfolding attempt_by_uri complete_information
  get_or_create_concept_by_uri c = attempt_by_uri second_call (complete_information environment c)
