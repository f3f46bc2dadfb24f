-- ===== src/Concepts.antt =====
-- Concepts: app/services/concepts (concept_informations.py, concept_factory.py and the solvers'
-- `complete_information`) and app/db/models/{concept, label}.py. Regular expressions, the quoting of URLs
-- and `isdigit` are a record of functions; what a solver fetches is a parameter.
pub mod GetOrCreate
pub mod Storing
pub mod Completing
mod Tests
use text.Mathlib.Text.{starts_with}
use svp_harvester.Prelude.{
  ℕ, String, ◌<>◌, Bool, true, false, ◌||◌, Option, none, some, List, [], ◌∷◌, if◌then◌else◌,
}
use svp_harvester.Prelude.Action.{Outcome, ok, raised}

-- `ConceptInformations.ConceptSources`
pub data Source : Type 0 where
  idref wikidata jel abes : Source

pub record ConceptInformations : Type 0 where
  pub language : Option String
  pub code : Option String
  pub uri : Option String
  pub url : Option String
  pub label : Option String
  pub source : Option Source

pub data ConceptError : Type 0 where
  dereferencing_error unknown_authority assertion_error value_error : ConceptError

-- `re.search` for the code in the URI of an IdRef concept, `re.sub` that takes the start off the URI of a
-- Wikidata concept, the part after the last `.` and after the last `#`, `urllib.parse.quote`, and
-- `code[0:-1].isdigit()`; whether the settings have the URL of a JEL proxy.
pub record Environment : Type 0 where
  pub idref_code : String → Option String
  pub wikidata_code : String → String
  pub after_last_dot : String → String
  pub after_last_hash : String → String
  pub quote : String → String
  pub starts_with_digits : String → Bool
  pub has_jel_proxy : Bool

abbrev pub Completed : Type 0
Completed = Outcome ConceptError ConceptInformations

-- `^https?://…`
abbrev pub is_at : String → String → Bool
is_at host uri = starts_with uri ("http://" <> host) || starts_with uri ("https://" <> host)

-- The patterns of `_infer_source`, in their order.
unfoldable pub source_of : String → Option Source
source_of uri =
    if is_at "www.idref.fr" uri
    then some idref
    else if is_at "www.wikidata.org" uri
    then some wikidata
    else if is_at "zbw.eu" uri
    then some jel
    else if is_at "hub.abes.fr" uri
    then some abes
    else none

abbrev pub with_source : Option Source → ConceptInformations → Completed
with_source none c = raised unknown_authority
with_source (some source) c = ok (record c { source = some source })

-- `_infer_source`
abbrev pub infer_source : Option String → ConceptInformations → Completed
infer_source none c = raised unknown_authority
infer_source (some uri) c = with_source (source_of uri) c

abbrev pub idref_uri : String → String
idref_uri code = "http://www.idref.fr/" <> (code <> "/id")

module _ (environment : Environment) where
  open environment use {
    idref_code, wikidata_code, after_last_dot, after_last_hash, quote, starts_with_digits,
    has_jel_proxy,
  }

  -- The last lines of `SparqlIdRefConceptSolver.complete_information`, with the code.
  abbrev pub check_idref : String → ConceptInformations → Completed
  check_idref code c =
      if starts_with_digits code
      then ok (record c {
        code = some code;
        url = some ("https://www.idref.fr/" <> (code <> ".rdf"));
        uri = some (idref_uri code);
      })
      else raised dereferencing_error

  -- `SparqlIdRefConceptSolver.complete_information`, by what is given of code and URI.
  abbrev pub complete_idref : Option String → Option String → ConceptInformations → Completed
  complete_idref (some code) uri c = check_idref code c
  complete_idref none none c = raised assertion_error
  complete_idref none (some uri) c = elim (idref_code uri) [
    | none ↦ raised dereferencing_error
    | some code ↦ check_idref code c
  ]

  abbrev pub wikidata_informations : String → ConceptInformations → Completed
  wikidata_informations code c = ok (record c {
    code = some code;
    uri = some ("http://www.wikidata.org/entity/" <> code);
    url = some ("https://www.wikidata.org/wiki/Special:EntityData/" <> (code <> ".json"));
  })

  -- `WikidataConceptSolver.complete_information`
  abbrev pub complete_wikidata : Option String → Option String → ConceptInformations → Completed
  complete_wikidata code (some uri) c = wikidata_informations (wikidata_code uri) c
  complete_wikidata none none c = raised dereferencing_error
  complete_wikidata (some code) none c = wikidata_informations code c

  -- `JelConceptSolver.complete_information`
  abbrev pub complete_jel_identifiers :
      Option String → Option String → ConceptInformations → Completed
  complete_jel_identifiers (some code) none c = ok (record c {
    uri = some ("http://zbw.eu/beta/external_identifiers/jel#" <> after_last_dot code);
  })
  complete_jel_identifiers none (some uri) c = ok (record c { code = some (after_last_hash uri) })
  complete_jel_identifiers none none c = raised dereferencing_error
  complete_jel_identifiers (some code) (some uri) c = raised dereferencing_error

  -- `SkosmosJelConceptSolver.complete_information`, after that of its superclass.
  abbrev pub skosmos_url : ConceptInformations → ConceptInformations
  skosmos_url c = elim c.uri [
    | none ↦ c
    | some uri ↦ record c {
      url = some (
          "https://zbw.eu/beta/skosmos/rest/v1/jel/data?uri="
          <> (quote uri <> "&format=application/rdf%2Bxml"));
    }
  ]

  abbrev pub complete_jel : ConceptInformations → Completed
  complete_jel c = elim (complete_jel_identifiers c.code c.uri c) [
    | raised e ↦ raised e
    | ok d ↦ ok (if has_jel_proxy then d else skosmos_url d)
  ]

  -- `AbesConceptSolver.complete_information`
  abbrev pub complete_abes : Option String → ConceptInformations → Completed
  complete_abes none c = raised dereferencing_error
  complete_abes (some uri) c = ok (record c {
    url = some (
        "https://scienceplus.abes.fr/sparql?query=define%20sql%3Adescribe-mode%20%22CBD%22%20%20DESCRIBE%20%3C"
        <> (quote uri <> "%3E&output=application%2Frdf%2Bxml"));
  })

  -- The solver that `_create_solver` makes completes the informations.
  unfoldable pub complete_by : Source → ConceptInformations → Completed
  complete_by idref c = complete_idref c.code c.uri c
  complete_by wikidata c = complete_wikidata c.code c.uri c
  complete_by jel c = complete_jel c
  complete_by abes c = complete_abes c.uri c

  abbrev pub complete_with_source : ConceptInformations → Completed
  complete_with_source c = elim c.source [
    | none ↦ raised value_error
    | some source ↦ complete_by source c
  ]

  abbrev pub complete_inferred : Completed → Completed
  complete_inferred (raised e) = raised e
  complete_inferred (ok d) = complete_with_source d

  abbrev pub complete_from : Option Source → ConceptInformations → Completed
  complete_from (some source) c = complete_by source c
  complete_from none c = complete_inferred (infer_source c.uri c)

  -- `ConceptFactory.complete_information`
  unfoldable pub complete_information : ConceptInformations → Completed
  unfolding source_of complete_by
  complete_information c = complete_from c.source c
