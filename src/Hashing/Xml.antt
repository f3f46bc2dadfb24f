-- ===== src/Hashing/Xml.antt =====
-- The text hashed for an XML document: app/services/hash/xml_hash_generator.py and hash_key_xml.py.
-- `findall` answers the descendants with a tag in the order of the document, and fails on a prefix
-- that the namespaces lack.
use text.Mathlib.Text.{find?}
use Prim.Native.String.{slice, len}
use mathlib.Core.Option
use svp_harvester.Prelude.{
  String, ◌<>◌, ◌+◌, Bool, cond, Option, none, some, List, [], ◌∷◌, ◌++◌, map, ◌==◌, string_eq,
}
use svp_harvester.Prelude.Sorting.{sorted}
use svp_harvester.Hashing.Rdf.{join}

-- An element of a document: its tag, its text and its children.
mutual
  pub data Element : Type 0 where
    element : String → Option String → Elements → Element

  pub data Elements : Type 0 where
    nil : Elements
    cons : Element → Elements → Elements

abbrev pub Namespaces : Type 0
Namespaces = List (String × String)

pub record HashKeyXml : Type 0 where
  pub value : String
  pub is_sorted : Bool
  pub namespace : Namespaces

unfoldable pub uri_of : Namespaces → String → Option String
uri_of [] prefix = none
uri_of (n ∷ ns) prefix = let rest = uri_of ns prefix in cond (n.0 == prefix) (some n.1) rest

-- The full name of a tag: `prefix:name` with its namespace, which must be known, or a name without
-- prefix with the default namespace if there is one.
unfoldable pub qualified_tag : String → Namespaces → Option String
unfolding uri_of
qualified_tag value namespaces = elim (find? value ":") [
  | some i ↦ elim (uri_of namespaces (slice value 0 i)) [
    | some uri ↦ some ("{" <> uri <> "}" <> slice value (i + 1) (len value))
    | none ↦ none
  ]
  | none ↦ elim (uri_of namespaces "") [
    | some uri ↦ some ("{" <> uri <> "}" <> value)
    | none ↦ some value
  ]
]

unfoldable mutual
  pub iter : String → Element → List Element
  iter tag (element t text children) =
      let below = iter_children tag children in
      cond (t == tag) (element t text children ∷ below) below

  pub iter_children : String → Elements → List Element
  iter_children tag nil = []
  iter_children tag (cons e es) = iter tag e ++ iter_children tag es

abbrev pub children_of : Element → Elements
children_of (element tag text children) = children

-- A found node stands for its text, if it has one.
pub data Term : Type 0 where
  text_term : String → Term
  node_term : Element → Term

abbrev pub node_or_text : Element → Term
node_or_text (element tag (some text) children) = text_term text
node_or_text (element tag none children) = node_term (element tag none children)

unfoldable mutual
  unfolding join

  pub to_string : Element → String
  to_string (element tag (some text) children) = text
  to_string (element tag none children) = join ";" (to_strings children)

  pub to_strings : Elements → List String
  to_strings nil = []
  to_strings (cons e es) = to_string e ∷ to_strings es

unfoldable mutual
  unfolding join sorted

  pub sort_element : Element → String
  sort_element (element tag (some text) children) = text
  sort_element (element tag none children) = join ";" (sorted (sort_elements children))

  pub sort_elements : Elements → List String
  sort_elements nil = []
  sort_elements (cons e es) = sort_element e ∷ sort_elements es

abbrev pub term_text : (Element → String) → Term → String
term_text f (text_term text) = text
term_text f (node_term node) = f node

unfoldable pub terms_text : Bool → List Term → String
unfolding to_string sort_element join sorted
terms_text is_sorted terms =
    join ";" (
      cond is_sorted (sorted (map (term_text sort_element) terms))
        (map (term_text to_string) terms))

unfoldable pub key_text : Element → HashKeyXml → Option String
unfolding qualified_tag iter terms_text
key_text payload key =
    Option.map
      (λ tag. terms_text key.is_sorted (map node_or_text (iter_children tag (children_of payload))))
      (qualified_tag key.value key.namespace)

abbrev pub both_texts : Option String → Option String → Option String
both_texts none o = none
both_texts (some t) none = none
both_texts (some t) (some u) = some (t <> u)

-- None if a key has an unknown prefix.
unfoldable pub hash_string : Element → List HashKeyXml → Option String
unfolding key_text
hash_string payload [] = some ""
hash_string payload (key ∷ hash_keys) =
    both_texts (key_text payload key) (hash_string payload hash_keys)
