-- ===== src/Sources/DocumentTypes.antt =====
-- The document type converters of the sources: app/harvesters/abstract_document_type_converter.py and
-- its subclasses.
pub mod Labels
mod Tests
use svp_harvester.Prelude.{
  String, ◌<>◌, Option, none, some, List, [], ◌∷◌, ◌==◌, string_eq, if◌then◌else◌,
}

-- The converters, each with the class that it stands for.
pub data TypesConverter : Type 0 where
  hal scanr science_plus sudoc idref open_edition open_alex scopus : TypesConverter

-- A key of a mapping with the URI and the label of the document type.
abbrev pub TypesMapping : Type 0
TypesMapping = List (String × String × String)

abbrev pub bibo : String → String
bibo name = "http://purl.org/ontology/bibo/" <> name

abbrev pub spar : String → String
spar name = "http://purl.org/spar/fabio/" <> name

abbrev pub coar : String → String
coar name = "http://purl.org/coar/resource_type/" <> name

abbrev pub cerif : String → String
cerif name = "http://purl.org/cerif/frapo/" <> name

abbrev pub frbr : String → String
frbr name = "http://purl.org/vocab/frbr/core#" <> name

abbrev pub rda : String → String
rda name = "http://rdaregistry.info/Elements/c/" <> name

abbrev pub hal_types : TypesMapping
hal_types =
    ("ART", bibo "Article", "Article")
    ∷ ("COMM", spar "ConferencePaper", "Conference Paper")
    ∷ ("COUV", bibo "Chapter", "Chapter")
    ∷ ("THESE", bibo "Thesis", "Thesis")
    ∷ ("OUV", bibo "Book", "Book")
    ∷ ("UNDEFINDED", spar "Preprint", "Preprint")
    ∷ ("MEM", "https://vocabularies.coar-repositories.org/resource_types/c_bdcc/", "Master Thesis")
    ∷ ("OTHER", coar "c_1843", "Other")
    ∷ ("REPORT", spar "Report", "Report")
    ∷ ("IMG", spar "Image", "Image")
    ∷ ("POSTER", spar "ConferencePoster", "Conference Poster")
    ∷ ("ISSUE", bibo "Document", "Document")
    ∷ ("NOTICE", bibo "Document", "Document")
    ∷ ("PROCEEDINGS", bibo "Proceedings", "Proceedings")
    ∷ ("HDR", bibo "Document", "Document")
    ∷ ("BLOG", coar "c_6947", "Blog Post")
    ∷ ("PATENT", bibo "Patent", "Patent")
    ∷ ("REPORT_LABO", coar "c_93fc", "Report")
    ∷ ("VIDEO", bibo "AudioVisualDocument", "Audiovisual Document")
    ∷ ("REPORT_MAST", coar "c_93fc", "Report")
    ∷ ("LECTURE", coar "c_8544", "Lecture")
    ∷ ("REPORT_LPRO", coar "c_93fc", "Report")
    ∷ ("REPORT_LICE", coar "c_93fc", "Report")
    ∷ ("TRAD", coar "c_1843", "Other")
    ∷ ("SOFTWARE", coar "c_5ce6", "Software")
    ∷ ("PRESCONF", coar "c_c94f", "Conference Output")
    ∷ ("CREPORT", coar "c_93fc", "Report")
    ∷ ("REPORT_DOCT", coar "c_93fc", "Report")
    ∷ ("REPORT_ETAB", coar "c_93fc", "Report")
    ∷ ("MAP", bibo "Map", "Map")
    ∷ ("REPORTFORM", coar "c_93fc", "Report")
    ∷ ("OTHERREPORT", coar "c_18wq", "Report")
    ∷ ("NOTE", bibo "Note", "Note")
    ∷ ("SYNTHESE", bibo "Document", "Document")
    ∷ ("REPORT_FPROJ", coar "c_93fc", "Report")
    ∷ ("REPORT_GLICE", coar "c_93fc", "Report")
    ∷ ("REPACT", coar "c_18gh", "Technical Report")
    ∷ ("ETABTHESE", bibo "Document", "Document")
    ∷ ("MEMLIC", bibo "Document", "Document")
    ∷ ("REPORT_RFOINT", bibo "Document", "Document")
    ∷ ("REPORT_GMAST", coar "c_93fc", "Report")
    ∷ ("REPORT_COOR", coar "c_93fc", "Report")
    ∷ ("REPORT_RETABINT", coar "c_93fc", "Report")
    ∷ ("PHOTOGRAPHY", spar "StillImage", "Still Image")
    ∷ ("RESREPORT", coar "c_18ws", "Research Report")
    ∷ ("BOOKREVIEW", spar "BookReview", "Book Review")
    ∷ ("ARTREV", spar "ReviewArticle", "Review Article")
    ∷ ("ILLUSTRATION", spar "StillImage", "Still Image")
    ∷ ("TECHREPORT", spar "TechnicalReport", "Technical Report")
    ∷ ("GRAPHICS", spar "StillImage", "Still Image")
    ∷ ("WORKINGPAPER", spar "WorkingPaper", "Working Paper")
    ∷ ("DATAPAPER", coar "c_beb9", "Data Paper")
    ∷ ("FUNDREPORT", spar "Report", "Report")
    ∷ ("PREPRINT", spar "Preprint", "Preprint")
    ∷ ("EXPERTREPORT", spar "Report", "Report")
    ∷ ("SYNTOUV", bibo "Book", "Book")
    ∷ ("CRIT", bibo "Book", "Book")
    ∷ ("MANUAL", bibo "Manual", "Manual")
    ∷ ("DRAWING", spar "StillImage", "Still Image")
    ∷ ("GRAVURE", spar "StillImage", "Still Image")
    ∷ ("DICTIONARY", spar "ReferenceBook", "Reference Book")
    ∷ ("DMP", spar "DataMangementPlan", "Data Management Plan")
    ∷ []

abbrev pub scanr_types : TypesMapping
scanr_types =
    ("book", bibo "Book", "Book")
    ∷ ("book-chapter", bibo "Chapter", "Chapter")
    ∷ ("journal-article", bibo "Article", "Article")
    ∷ ("other", coar "c_1843", "Other")
    ∷ ("preprint", spar "Preprint", "Preprint")
    ∷ ("proceedings", bibo "Proceedings", "Proceedings")
    ∷ ("these", bibo "Thesis", "Thesis")
    ∷ ("thesis", bibo "Thesis", "Thesis")
    ∷ []

abbrev pub science_plus_types : TypesMapping
science_plus_types =
    (rda "C10001", rda "C10001", "Work") ∷ (bibo "Article", bibo "Article", "Article") ∷ []

abbrev pub sudoc_types : TypesMapping
sudoc_types =
    (bibo "Book", bibo "Book", "Book")
    ∷ (bibo "Thesis", bibo "Thesis", "Thesis")
    ∷ (bibo "Article", bibo "Article", "Article")
    ∷ (bibo "Document", bibo "Document", "Document")
    ∷ (bibo "Excerpt", bibo "Excerpt", "Excerpt")
    ∷ []

abbrev pub idref_types : TypesMapping
idref_types = (frbr "Work", frbr "Work", "Work") ∷ (rda "C10001", rda "C10001", "Work") ∷ []

abbrev pub open_edition_types : TypesMapping
open_edition_types =
    ("article", bibo "Article", "Article")
    ∷ ("introduction", bibo "Chapter", "Chapter")
    ∷ ("review", spar "ReviewPaper,", "Review Paper")
    ∷ ("archaelogical note", bibo "Note", "Note")
    ∷ ("chapter", bibo "Chapter", "Chapter")
    ∷ []

abbrev pub open_alex_types : TypesMapping
open_alex_types =
    ("article", bibo "Article", "Article")
    ∷ ("book", bibo "Book", "Book")
    ∷ ("book-chapter", bibo "Chapter", "Chapter")
    ∷ ("dataset", spar "Dataset", "Dataset")
    ∷ ("dissertation", bibo "Thesis", "Thesis")
    ∷ ("editorial", spar "Editorial", "Editorial")
    ∷ ("erratum", spar "Erratum", "Erratum")
    ∷ ("grant", cerif "Grant", "Grant")
    ∷ ("letter", bibo "Letter", "Letter")
    ∷ ("other", coar "c_1843", "Other")
    ∷ ("paratext", spar "MetadataDocument", "Metadata Document")
    ∷ ("peer-review", coar "H9BQ-739P", "Peer review")
    ∷ ("reference-entry", bibo "Document", "Document")
    ∷ ("review", spar "ReviewPaper,", "Review Paper")
    ∷ ("report", spar "Report", "Report")
    ∷ ("standard", bibo "Standard", "Standard")
    ∷ ("preprint", spar "Preprint", "Preprint")
    ∷ []

abbrev pub scopus_types : TypesMapping
scopus_types =
    ("ar", bibo "Article", "Article")
    ∷ ("ed", spar "Editorial", "Editorial")
    ∷ ("re", spar "ReviewPaper", "Review")
    ∷ ("ch", bibo "Chapter", "Chapter")
    ∷ ("bk", bibo "Book", "Book")
    ∷ ("er", spar "Erratum", "Erratum")
    ∷ ("le", bibo "Letter", "Letter")
    ∷ ("ot", coar "c_1843", "Other")
    ∷ ("no", "http://data.crisalid.org/ref/document_types/unknown", "Note")
    ∷ ("sh", "http://data.crisalid.org/ref/document_types/unknown", "Short Survey")
    ∷ ("dp", "http://data.crisalid.org/ref/document_types/unknown", "Data Paper")
    ∷ ("aip", "http://data.crisalid.org/ref/document_types/unknown", "Article in Press")
    ∷ ("cp", "http://data.crisalid.org/ref/document_types/unknown", "Conference Paper")
    ∷ ("cr", "http://data.crisalid.org/ref/document_types/unknown", "Conference Review")
    ∷ []

-- `UNKNOWN_CODE`
abbrev pub unknown_code : String × String
unknown_code = ("http://data.crisalid.org/ref/document_types/unknown", "Unknown")

abbrev pub types_mapping : TypesConverter → TypesMapping
types_mapping hal = hal_types
types_mapping scanr = scanr_types
types_mapping science_plus = science_plus_types
types_mapping sudoc = sudoc_types
types_mapping idref = idref_types
types_mapping open_edition = open_edition_types
types_mapping open_alex = open_alex_types
types_mapping scopus = scopus_types

abbrev pub type_of : String → TypesMapping → Option (String × String)
type_of key [] = none
type_of key (entry ∷ entries) =
    if entry.0 == key then some (entry.1, entry.2) else type_of key entries

abbrev pub or_unknown : Option (String × String) → String × String
or_unknown none = unknown_code
or_unknown (some code) = code

-- `AbstractDocumentTypeConverter.convert`: the URI and the label of the document type.
unfoldable pub convert_type : TypesConverter → String → String × String
convert_type converter document_type = or_unknown (type_of document_type (types_mapping converter))
