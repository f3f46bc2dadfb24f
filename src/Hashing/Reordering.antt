-- ===== src/Hashing/Reordering.antt =====
-- The order of the elements of a document has no influence on the text hashed for it:
-- app/services/hash/xml_hash_generator.py.
use mathlib.Core.List.{Permᴰ, map-append}
use mathlib.Core.List.Permᴰ
use mathlib.Core.Option
use svp_harvester.Prelude.{
  String, Bool, true, false, cond, Option, none, some, List, [], ◌∷◌, ◌++◌, map, All, ◌≡◌, refl, ap,
  subst, ◌==◌, string_eq, append_assoc,
}
use svp_harvester.Prelude.Sorting.{Perm-sorted}
use svp_harvester.Hashing.Rdf.{join}
use svp_harvester.Hashing.Xml.{
  Element, element, Elements, nil, cons, HashKeyXml, node_or_text, term_text, iter, iter_children,
  children_of, sort_element, sort_elements, terms_text, key_text, both_texts, hash_string,
}

-- The same document but for the order of the elements with one parent, at any depth.
mutual
  pub data IsReordered : Element → Element → Type 0 where
    same_element :
        {tag : String} {text : Option String} {es fs : Elements}
        → AreReordered es fs
        → IsReordered (element tag text es) (element tag text fs)

  pub data AreReordered : Elements → Elements → Type 0 where
    nothing : AreReordered nil nil
    one_by_one :
        {e f : Element} {es fs : Elements}
        → IsReordered e f
        → AreReordered es fs
        → AreReordered (cons e es) (cons f fs)
    swapped :
        {e f : Element} {es : Elements} → AreReordered (cons e (cons f es)) (cons f (cons e es))
    in_turn : {es fs gs : Elements} → AreReordered es fs → AreReordered fs gs → AreReordered es gs

mutual
  unfolding sort_element

  sort_element-reordered : {e f : Element} → IsReordered e f → sort_element e ≡ sort_element f
  sort_element-reordered (same_element {text = some text} r) = refl
  sort_element-reordered (same_element {text = none} r) =
      ap (join ";") (Perm-sorted _ _ ∣ sort_elements-reordered r ∣₁)

  sort_elements-reordered :
      {es fs : Elements} → AreReordered es fs → Permᴰ (sort_elements es) (sort_elements fs)
  sort_elements-reordered nothing = Permᴰ.nil
  sort_elements-reordered (one_by_one r rs) =
      Permᴰ.cons (sort_element-reordered r) (sort_elements-reordered rs)
  sort_elements-reordered swapped = Permᴰ.swap refl refl
  sort_elements-reordered (in_turn r s) =
      Permᴰ.trans (sort_elements-reordered r) (sort_elements-reordered s)

-- The texts of the elements with a tag.
abbrev found : String → Elements → List String
found tag es = map sort_element (iter_children tag es)

found-cons :
    (tag : String) (e : Element) (es : Elements)
    → found tag (cons e es) ≡ map sort_element (iter tag e) ++ found tag es
unfolding iter
found-cons tag e es = map-append sort_element (iter tag e) (iter_children tag es)

move_first : (xs ys zs : List String) → Permᴰ (xs ++ (ys ++ zs)) (ys ++ (xs ++ zs))
move_first xs ys zs =
    subst (λ l. Permᴰ l (ys ++ (xs ++ zs))) (append_assoc xs ys zs)
      (subst (λ l. Permᴰ ((xs ++ ys) ++ zs) l) (append_assoc ys xs zs)
        (Permᴰ.append_right zs (Permᴰ.append_comm xs ys)))

kept_first :
    (b : Bool) (e f : Element) (es fs : List Element)
    → sort_element e ≡ sort_element f
    → Permᴰ (map sort_element es) (map sort_element fs)
    → Permᴰ (map sort_element (cond b (e ∷ es) es)) (map sort_element (cond b (f ∷ fs) fs))
kept_first true e f es fs same rest = Permᴰ.cons same rest
kept_first false e f es fs same rest = rest

mutual
  unfolding iter

  iter-reordered :
      (tag : String) {e f : Element}
      → IsReordered e f
      → Permᴰ (map sort_element (iter tag e)) (map sort_element (iter tag f))
  iter-reordered tag (same_element {tag = t} {text} {es} {fs} r) =
      kept_first (t == tag) (element t text es) (element t text fs) _ _
        (sort_element-reordered (same_element r)) (found-reordered tag r)

  found-reordered :
      (tag : String) {es fs : Elements} → AreReordered es fs → Permᴰ (found tag es) (found tag fs)
  found-reordered tag nothing = Permᴰ.nil
  found-reordered tag (one_by_one {e} {f} {es} {fs} r rs) =
      rw (found-cons tag e es, found-cons tag f fs)
        (Permᴰ.trans (Permᴰ.append_right (found tag es) (iter-reordered tag r))
          (Permᴰ.append_left (map sort_element (iter tag f)) (found-reordered tag rs)))
  found-reordered tag (swapped {e} {f} {es}) =
      rw
        (
          found-cons tag e (cons f es),
          found-cons tag f es,
          found-cons tag f (cons e es),
          found-cons tag e es,
        )
        (move_first (map sort_element (iter tag e)) (map sort_element (iter tag f)) (found tag es))
  found-reordered tag (in_turn r s) = Permᴰ.trans (found-reordered tag r) (found-reordered tag s)

term_text-sort_element : (e : Element) → term_text sort_element (node_or_text e) ≡ sort_element e
unfolding sort_element
term_text-sort_element (element tag (some text) children) = refl
term_text-sort_element (element tag none children) = refl

terms_sorted :
    (es : List Element) → map (term_text sort_element) (map node_or_text es) ≡ map sort_element es
terms_sorted [] = refl
terms_sorted (e ∷ es) = λ i. term_text-sort_element e i ∷ terms_sorted es i

below : {d e : Element} → IsReordered d e → AreReordered (children_of d) (children_of e)
below (same_element r) = r

map-same :
    (f g : String → String) (o : Option String)
    → ((t : String) → f t ≡ g t)
    → Option.map f o ≡ Option.map g o
map-same f g none same = refl
map-same f g (some t) same = ap some (same t)

key_text-reordered :
    (d e : Element) (key : HashKeyXml)
    → key.is_sorted ≡ true
    → IsReordered d e
    → key_text d key ≡ key_text e key
unfolding key_text terms_text
key_text-reordered d e key on r = rw (on) (
    map-same _ _ _ (λ tag.
      rw
        (
          terms_sorted (iter_children tag (children_of d)),
          terms_sorted (iter_children tag (children_of e)),
        )
        (ap (join ";") (Perm-sorted _ _ ∣ found-reordered tag (below r) ∣₁))))

-- If every key is sorted and two documents differ only in the order of the elements with one parent,
-- at any depth, then the same text is hashed for both, or a key has an unknown prefix and both fail.
pub hash_string-reordered :
    (d e : Element) (hash_keys : List HashKeyXml)
    → All (λ k. k.is_sorted ≡ true) hash_keys
    → IsReordered d e
    → hash_string d hash_keys ≡ hash_string e hash_keys
unfolding hash_string
hash_string-reordered d e [] all r = refl
hash_string-reordered d e (k ∷ ks) all r =
    λ i. both_texts (key_text-reordered d e k all.0 r i) (hash_string-reordered d e ks all.1 r i)
