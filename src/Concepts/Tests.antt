-- ===== src/Concepts/Tests.antt =====
-- Sample concepts of app/services/concepts.
use svp_harvester.Concepts.{
  ConceptInformations, ConceptError, Environment, Source, idref, jel, abes, complete_information,
  source_of, dereferencing_error, unknown_authority,
}
use svp_harvester.Concepts.GetOrCreate.{
  NewConcept, Concepts, get_or_create_concept_by_uri, has_uri_of, with_label, exception, make,
}
use svp_harvester.Concepts.Storing.{
  IsSolver, get_or_create_concept_by_uri-IsStored, get_or_create_concept_by_uri-raced,
}
use svp_harvester.Tables.Race.{IsStored}
use svp_harvester.Prelude.{
  String, ◌<>◌, true, Option, none, some, List, [], ◌∷◌, ◌≡◌, refl, inr, arith, string_eq,
}
use svp_harvester.Prelude.Action.{Outcome, raised}

-- An environment for one concept of each source.
abbrev environment : Environment
environment = record {
  idref_code = λ uri. some "027";
  wikidata_code = λ uri. "Q1";
  after_last_dot = λ code. code;
  after_last_hash = λ uri. "G12";
  quote = λ uri. uri;
  starts_with_digits = λ code. true;
  has_jel_proxy = true;
}

abbrev given : Option String → Option String → Option Source → ConceptInformations
given code uri source = record {
  language = none;
  code = code;
  uri = uri;
  url = none;
  label = some "law";
  source = source;
}

of_idref : source_of "https://www.idref.fr/027/id" ≡ some idref
unfolding source_of
of_idref = refl

of_nobody : source_of "https://example.org/027" ≡ none
unfolding source_of
of_nobody = refl

-- Neither an URI nor a source.
no_authority :
    complete_information environment (given (some "027") none none) ≡ raised unknown_authority
unfolding complete_information
no_authority = refl

-- No solver answers.
abbrev unreachable : ConceptInformations → Outcome ConceptError NewConcept
unreachable c = raised dereferencing_error

unreachable-IsSolver : IsSolver unreachable
unreachable-IsSolver = record { answers = λ c. inr refl }

abbrev of_jel : ConceptInformations
of_jel = given (some "G12") (some "http://zbw.eu/beta/external_identifiers/jel#G12") (some jel)

abbrev of_abes : ConceptInformations
of_abes = record (given none (some "http://hub.abes.fr/1") (some abes)) {
  url = some (
      "https://scienceplus.abes.fr/sparql?query=define%20sql%3Adescribe-mode%20%22CBD%22%20%20DESCRIBE%20%3C"
      <> ("http://hub.abes.fr/1" <> "%3E&output=application%2Frdf%2Bxml"));
}

abbrev rival : NewConcept
rival = record {
  uri = "http://zbw.eu/beta/external_identifiers/jel#G12";
  labels = [];
  dereferenced = true;
}

abbrev no_concepts : List (List NewConcept) → Concepts
no_concepts concurrent = record { rows = []; next_id = 1; concurrent = concurrent }

get_or_create_concept_by_uri-IsStored_example : IsStored has_uri_of (with_label none of_abes) (
    get_or_create_concept_by_uri environment unreachable
      (given none (some "http://hub.abes.fr/1") none)
      (no_concepts []))
unfolding complete_information
get_or_create_concept_by_uri-IsStored_example =
    get_or_create_concept_by_uri-IsStored environment unreachable unreachable-IsSolver
      (given none (some "http://hub.abes.fr/1") none) of_abes (λ code its found. ground arith) refl
      (no_concepts []) (ground arith) (λ new. omega arith)

get_or_create_concept_by_uri-raced_example :
    get_or_create_concept_by_uri environment unreachable
      (given (some "G12") none (some jel))
      (no_concepts ((rival ∷ []) ∷ []))
    ≡ (
      raised (exception dereferencing_error),
      record { rows = make 1 rival ∷ []; next_id = 2; concurrent = [] },
    )
unfolding complete_information
get_or_create_concept_by_uri-raced_example =
    get_or_create_concept_by_uri-raced environment unreachable unreachable-IsSolver
      (given (some "G12") none (some jel)) of_jel (λ code its found. ground arith) refl rival []
      (no_concepts ((rival ∷ []) ∷ [])) refl refl refl refl
