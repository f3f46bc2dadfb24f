-- ===== src/Hashing/Tests.antt =====
-- Sample hash keys and documents of app/services/hash.
use svp_harvester.Prelude.{String, true, some, none, List, [], ◌∷◌, ◌≡◌, refl, string_eq}
use svp_harvester.Hashing.Xml.{
  Element, element, nil, cons, Namespaces, HashKeyXml, uri_of, qualified_tag, hash_string,
}
use svp_harvester.Hashing.Xml
use svp_harvester.Hashing.Reordering.{
  IsReordered, same_element, swapped, one_by_one, nothing, hash_string-reordered,
}
use svp_harvester.Hashing.Reordering
use svp_harvester.Hashing.Rdf.{HashKey}
use svp_harvester.Hashing.Rdf
use mathlib.Core.List.{Permᴰ}

abbrev namespaces : Namespaces
namespaces = ("dcterms", "http://purl.org/dc/terms/") ∷ []

abbrev subject : String → Element
subject text = element "{http://purl.org/dc/terms/}subject" (some text) nil

abbrev document : Element
document = element "record" none (cons (subject "law") (cons (subject "art") nil))

abbrev other_order : Element
other_order = element "record" none (cons (subject "art") (cons (subject "law") nil))

abbrev subjects : List HashKeyXml
subjects = record { value = "dcterms:subject"; is_sorted = true; namespace = namespaces } ∷ []

prefixed : qualified_tag "dcterms:subject" namespaces ≡ some "{http://purl.org/dc/terms/}subject"
unfolding qualified_tag string_eq
prefixed = refl

hashed : Xml.hash_string document subjects ≡ some "art;law"
unfolding Xml.hash_string string_eq svp_harvester.Prelude.Texts.leb
hashed = refl

unknown_prefix :
    Xml.hash_string document
      (record { value = "dc:subject"; is_sorted = true; namespace = namespaces } ∷ [])
    ≡ none
unfolding Xml.hash_string string_eq
unknown_prefix = refl

hash_string-reordered_example :
    Xml.hash_string document subjects ≡ Xml.hash_string other_order subjects
hash_string-reordered_example =
    Reordering.hash_string-reordered document other_order subjects (refl, tt) (same_element swapped)

-- A graph as the list of its triples' predicates and objects, all of one subject.
abbrev objects : List String → String → String → List String
objects graph uri predicate = graph

abbrev titles : List HashKey
titles = record { value = "title"; is_sorted = true } ∷ []

hash_string-permuted_example :
    Rdf.hash_string objects ("b" ∷ "a" ∷ []) "uri" titles
    ≡ Rdf.hash_string objects ("a" ∷ "b" ∷ []) "uri" titles
hash_string-permuted_example =
    Rdf.hash_string-permuted objects ("b" ∷ "a" ∷ []) ("a" ∷ "b" ∷ []) "uri" titles (refl, tt)
      (λ predicate. ∣ Permᴰ.swap refl refl ∣₁)
