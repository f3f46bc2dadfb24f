-- ===== src/Hashing/Rdf.antt =====
-- The text hashed for a graph: app/services/hash/rdf_hash_generator.py and hash_key.py. The graph is the
-- RDF library's: it enters by what it answers for a subject and a predicate.
use svp_harvester.Prelude.{String, ◌<>◌, Bool, true, cond, List, [], ◌∷◌, All, ◌≡◌, refl, ap}
use svp_harvester.Prelude.Sorting.{sorted, Perm-sorted}
use mathlib.Core.List.{Perm}

pub record HashKey : Type 0 where
  pub value : String
  pub is_sorted : Bool

-- `separator.join(texts)`.
unfoldable pub join : String → List String → String
join separator [] = ""
join separator (t ∷ ts) =
    let rest = join separator ts in elim ts [ [] ↦ t | u ∷ us ↦ t <> separator <> rest ]

module _ {Graph : Type 0} (objects : Graph → String → String → List String) where
  unfoldable pub key_text : Graph → String → HashKey → String
  key_text pub_graph uri predicate =
      let texts = objects pub_graph uri predicate.value in
      join ";" (cond predicate.is_sorted (sorted texts) texts)

  unfoldable pub hash_string : Graph → String → List HashKey → String
  hash_string pub_graph uri [] = ""
  hash_string pub_graph uri (predicate ∷ hash_keys) =
      key_text pub_graph uri predicate <> hash_string pub_graph uri hash_keys

  -- If every key is sorted and two graphs answer, for the subject and each predicate, the same objects in
  -- any order, then the same text is hashed for both.
  pub hash_string-permuted :
      (g h : Graph) (uri : String) (hash_keys : List HashKey)
      → All (λ k. k.is_sorted ≡ true) hash_keys
      → ((predicate : String) → Perm (objects g uri predicate) (objects h uri predicate))
      → hash_string g uri hash_keys ≡ hash_string h uri hash_keys
  unfolding hash_string key_text
  hash_string-permuted g h uri [] all same = refl
  hash_string-permuted g h uri (k ∷ ks) all same =
      λ i. key i <> hash_string-permuted g h uri ks all.1 same i
    where
      key : key_text g uri k ≡ key_text h uri k
      key = rw (all.0) (ap (join ";") (Perm-sorted _ _ (same k.value)))
