-- ===== src/Contributors/Names.antt =====
-- The names of a contributor and their variants: `_update_contributor_name` and
-- `_update_contributor_structured_name` of app/harvesters/abstract_references_converter.py.
use svp_harvester.Prelude.{
  String, Bool, true, false, not, ◌&&◌, ◌||◌, Option, none, [], ◌∷◌, ◌++◌, contains, ◌==◌,
  string_eq, option_eq, pair_eq, ◌≡◌, refl, ap, ◌∙◌, arith, path→eq, eq→path, cond, Bool-cases, inl,
  inr, and_left, or_left, and_right, or_right, NoDup, contains-last, contains-cond, contains-longer,
  joined-NoDup, contains-append, NoDup-cond,
}
use svp_harvester.Contributors.{
  StructuredName, Contributor, structured_name, keep_structured_name, update_contributor_name,
  update_contributor_structured_name,
}

-- What an update of the name keeps and changes.
pub record IsRenamed (c : Contributor) (name : Option String) (new : Contributor) : Type 0 where
  pub renamed : new.name ≡ name
  pub kept : (c.name == name || contains new.name_variants c.name) ≡ true
  pub remembered :
      (variant : Option String)
      → contains c.name_variants variant ≡ true
      → contains new.name_variants variant ≡ true
  pub distinct : NoDup c.name_variants → NoDup new.name_variants
  pub others : record new { name = c.name; name_variants = c.name_variants } ≡ c

update-NoDup :
    (c : Contributor) (name : Option String) (same : Bool)
    → NoDup c.name_variants
    → NoDup
        (cond same c record c {
          name = name;
          name_variants =
              cond
                (contains c.name_variants c.name)
                c.name_variants
                (c.name_variants ++ c.name ∷ []);
        }).name_variants
update-NoDup c name true d = d
update-NoDup c name false d =
    joined-NoDup c.name_variants c.name (contains c.name_variants c.name) refl d

-- For every contributor and name: the contributor then has that name, its old name is that name
-- or among the variants, no variant is lost, variants that were distinct stay so, and nothing but
-- the name and its variants changes.
pub update_contributor_name-IsRenamed :
    (c : Contributor) (name : Option String) → IsRenamed c name (update_contributor_name c name)
unfolding update_contributor_name
update_contributor_name-IsRenamed c name = record {
  renamed = ground (arith, eq→path c.name name);
  kept = ground (arith, contains-last c.name_variants c.name);
  remembered =
      λ variant h. ground (arith, h, contains-append c.name_variants (c.name ∷ []) variant);
  distinct = update-NoDup c name (c.name == name);
  others = ground arith;
}

-- What an update of the structured name keeps and changes.
pub record IsRestructured (c : Contributor) (first_name last_name : Option String)
    (new : Contributor) : Type 0 where
  pub renamed : structured_name new ≡ (first_name, last_name)
  pub kept :
      (structured_name c == (first_name, last_name)
        || (structured_name c == (none, none)
            || contains new.structured_name_variants (structured_name c)))
      ≡ true
  pub remembered :
      (variant : StructuredName)
      → contains c.structured_name_variants variant ≡ true
      → contains new.structured_name_variants variant ≡ true
  pub distinct : NoDup c.structured_name_variants → NoDup new.structured_name_variants
  pub others :
      record new {
        first_name = c.first_name;
        last_name = c.last_name;
        structured_name_variants = c.structured_name_variants;
      }
      ≡ c

kept_if_nonempty :
    (c : Contributor)
    → (not (c.first_name == none) || not (c.last_name == none)) ≡ true
    → contains (keep_structured_name c) (structured_name c) ≡ true
kept_if_nonempty c h =
    contains-cond c.structured_name_variants (structured_name c)
      (not (c.first_name == none) || not (c.last_name == none)) h

variant-cond :
    (c : Contributor) (first_name last_name : Option String) (same : Bool)
    (variant : StructuredName)
    → contains c.structured_name_variants variant ≡ true
    → contains
        (cond same c record c {
          first_name = first_name;
          last_name = last_name;
          structured_name_variants = keep_structured_name c;
        }).structured_name_variants
        variant
      ≡ true
variant-cond c first_name last_name true variant h = h
variant-cond c first_name last_name false variant h =
    let xs = c.structured_name_variants in
    let nonempty = not (c.first_name == none) || not (c.last_name == none) in
    contains-longer xs (structured_name c) variant
      (nonempty && not (contains xs (structured_name c))) h

keep-NoDup : (c : Contributor) → NoDup c.structured_name_variants → NoDup (keep_structured_name c)
keep-NoDup c d =
    let xs = c.structured_name_variants in
    let nonempty = not (c.first_name == none) || not (c.last_name == none) in
    NoDup-cond xs (structured_name c) (nonempty && not (contains xs (structured_name c))) d
      (λ h. ground (arith, h))

update_structured-NoDup :
    (c : Contributor) (first_name last_name : Option String) (same : Bool)
    → NoDup c.structured_name_variants
    → NoDup
        (cond same c record c {
          first_name = first_name;
          last_name = last_name;
          structured_name_variants = keep_structured_name c;
        }).structured_name_variants
update_structured-NoDup c first_name last_name true d = d
update_structured-NoDup c first_name last_name false d = keep-NoDup c d

and-path :
    (a b x y : Option String) → (a == x && b == y) ≡ true → ◌≡◌ {A = StructuredName} (a, b) (x, y)
and-path a b x y h =
    ap (λ (n : Option String). (n, b)) (eq→path a x (and_left _ h))
    ∙ ap (λ (n : Option String). (x, n)) (eq→path b y (and_right (a == x) h))

structured_name-cond :
    (c : Contributor) (first_name last_name : Option String) (same : Bool)
    → (same ≡ true → structured_name c ≡ (first_name, last_name))
    → structured_name (
        cond same c record c {
          first_name = first_name;
          last_name = last_name;
          structured_name_variants = keep_structured_name c;
        })
      ≡ (first_name, last_name)
structured_name-cond c first_name last_name true h = h refl
structured_name-cond c first_name last_name false h = refl

-- The variants after a change hold the old structured name, unless it is empty.
keep-contains :
    (c : Contributor)
    → (structured_name c == (none, none) || contains (keep_structured_name c) (structured_name c))
      ≡ true
keep-contains c = elim (Bool-cases (c.first_name == none && c.last_name == none)) [
  | inl h ↦
      or_left _
        (path→eq (structured_name c) (none, none) (and-path c.first_name c.last_name none none h))
  | inr h ↦ or_right (structured_name c == (none, none)) (kept_if_nonempty c (ground (arith, h)))
]

kept-cond :
    (c : Contributor) (first_name last_name : Option String) (same : Bool)
    → (same ≡ true → structured_name c ≡ (first_name, last_name))
    → (structured_name c == (first_name, last_name)
        || (structured_name c == (none, none)
            || contains
                (cond same c record c {
                  first_name = first_name;
                  last_name = last_name;
                  structured_name_variants = keep_structured_name c;
                }).structured_name_variants
                (structured_name c)))
      ≡ true
kept-cond c first_name last_name true h =
    or_left _ (path→eq (structured_name c) (first_name, last_name) (h refl))
kept-cond c first_name last_name false h =
    or_right (structured_name c == (first_name, last_name)) (keep-contains c)

-- For every contributor, first name and last name: the contributor then has those, its old
-- structured name is the new one, or empty, or among the variants, no variant is lost, variants that
-- were distinct stay so, and nothing but the structured name and its variants changes.
pub update_contributor_structured_name-IsRestructured :
    (c : Contributor) (first_name last_name : Option String)
    → IsRestructured c first_name last_name
        (update_contributor_structured_name c first_name last_name)
unfolding update_contributor_structured_name
update_contributor_structured_name-IsRestructured c first_name last_name = record {
  renamed =
      structured_name-cond c first_name last_name
        (c.first_name == first_name && c.last_name == last_name)
        (and-path c.first_name c.last_name first_name last_name);
  kept =
      kept-cond c first_name last_name (c.first_name == first_name && c.last_name == last_name)
        (and-path c.first_name c.last_name first_name last_name);
  remembered =
      variant-cond c first_name last_name (c.first_name == first_name && c.last_name == last_name);
  distinct =
      update_structured-NoDup c first_name last_name
        (c.first_name == first_name && c.last_name == last_name);
  others = ground arith;
}
