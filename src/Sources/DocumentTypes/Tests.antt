-- ===== src/Sources/DocumentTypes/Tests.antt =====
-- The document type converters on samples.
use svp_harvester.Prelude.{◌≡◌, ◌≢◌, refl, string_eq, text-ne}
use svp_harvester.Sources.DocumentTypes.{hal, open_alex, scopus, bibo, convert_type, unknown_code}
use svp_harvester.Sources.DocumentTypes.Labels.{convert_type-labels}

of_chapter : convert_type hal "COUV" ≡ (bibo "Chapter", "Chapter")
unfolding convert_type string_eq
of_chapter = refl

of_nothing : convert_type hal "UNDEFINED" ≡ unknown_code
unfolding convert_type string_eq
of_nothing = refl

same_uri : (convert_type hal "OUV").0 ≡ (convert_type open_alex "book").0
unfolding convert_type string_eq
same_uri = refl

known_uri : (convert_type hal "OUV").0 ≢ unknown_code.0
unfolding convert_type string_eq
known_uri = text-ne _ _ refl

convert_type-labels_example : (convert_type hal "OUV").1 ≡ (convert_type open_alex "book").1
convert_type-labels_example = convert_type-labels hal open_alex "OUV" "book" same_uri known_uri

-- Two types of Scopus have the URI of the unknown type and labels of their own.
of_conference : convert_type scopus "cp" ≡ (unknown_code.0, "Conference Paper")
unfolding convert_type string_eq
of_conference = refl

of_note : convert_type scopus "no" ≡ (unknown_code.0, "Note")
unfolding convert_type string_eq
of_note = refl
