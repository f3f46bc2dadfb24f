-- ===== src/Contributors/ExternalIdentifiers.antt =====
-- `ContributorDAO.update_external_identifiers` of app/db/daos/contributor_dao.py.
use text.Mathlib.TextPositions.{starts_with-append}
use svp_harvester.Prelude.{
  Bool, true, false, ◌&&◌, ◌||◌, List, [], ◌∷◌, map, filter, contains, ◌==◌, string_eq, pair_eq,
  ◌≡◌, refl, ap, ◌∙◌, arith, eq→path, cond, if◌then◌else◌, Bool-cases, inl, inr, ◌⊎◌, any, sym, not,
  false≢true, path→eq, subst, contains-append,
}
use svp_harvester.Contributors.{
  Identifier, stored_identifier, distinct, with_valid_type, validate_orcid_value,
  replaced_identifiers,
}

-- An identifier is stored as it is given: it is no ORCID without the prefix.
abbrev pub IsNormal : Identifier → Type 0
IsNormal identifier = stored_identifier identifier ≡ identifier

abbrev pub AreNormal : List Identifier → Type 0
AreNormal identifiers = (i : Identifier) → contains identifiers i ≡ true → IsNormal i

contains_path :
    (xs : List Identifier) (a b : Identifier) → (a == b) ≡ true → contains xs a ≡ contains xs b
contains_path xs a b h = ap (contains xs) (eq→path a b h)

-- The test of a filter decides, for an element of which it says the same as of its equals.
contains-filter :
    (p : Identifier → Bool) (xs : List Identifier) (a : Identifier)
    → contains (filter p xs) a ≡ (p a && contains xs a)
contains-filter p [] a = ground arith
contains-filter p (x ∷ xs) a = go (Bool-cases (a == x)) (Bool-cases (p x)) (contains-filter p xs a)
  where
    go :
        ((a == x) ≡ true) ⊎ ((a == x) ≡ false)
        → (p x ≡ true) ⊎ (p x ≡ false)
        → contains (filter p xs) a ≡ (p a && contains xs a)
        → contains (cond (p x) (x ∷ filter p xs) (filter p xs)) a
          ≡ (p a && (a == x || contains xs a))
    go (inl same) (inl px) ih = rw (px, same, ap p (eq→path a x same) ∙ px) refl
    go (inl same) (inr px) ih = rw (px, same, ih, ap p (eq→path a x same) ∙ px) refl
    go (inr differ) (inl px) ih = rw (px, differ, ih) refl
    go (inr differ) (inr px) ih = rw (px, differ, ih) refl

contains-distinct :
    (xs : List Identifier) (a : Identifier) → contains (distinct xs) a ≡ contains xs a
contains-distinct [] a = refl
contains-distinct (x ∷ xs) a =
    go (Bool-cases (contains (distinct xs) x)) (Bool-cases (a == x)) (contains-distinct xs a)
  where
    go :
        (contains (distinct xs) x ≡ true) ⊎ (contains (distinct xs) x ≡ false)
        → ((a == x) ≡ true) ⊎ ((a == x) ≡ false)
        → contains (distinct xs) a ≡ contains xs a
        → contains (if contains (distinct xs) x then distinct xs else x ∷ distinct xs) a
          ≡ (a == x || contains xs a)
    go (inl hit) (inl same) ih = rw (hit, same) (contains_path (distinct xs) a x same ∙ hit)
    go (inl hit) (inr differ) ih = rw (hit, differ) ih
    go (inr miss) (inl same) ih = rw (miss, same) refl
    go (inr miss) (inr differ) ih = rw (miss, differ) ih

-- The identifiers that a list of given ones leads to.
abbrev pub expected : List Identifier → List Identifier
expected ext_identifiers = map stored_identifier (with_valid_type ext_identifiers)

contains-map :
    (xs : List Identifier) (a : Identifier)
    → contains (map stored_identifier xs) a ≡ any (λ x. a == stored_identifier x) xs
contains-map [] a = refl
contains-map (x ∷ xs) a = ground (arith, contains-map xs a)

any_witness :
    (p : Identifier → Bool) (xs : List Identifier)
    → any p xs ≡ true
    → (x : Identifier) × (contains xs x ≡ true) × (p x ≡ true)
any_witness p [] h = absurd (false≢true h)
any_witness p (x ∷ xs) h = go (Bool-cases (p x)) (any_witness p xs)
  where
    go :
        (p x ≡ true) ⊎ (p x ≡ false)
        → (any p xs ≡ true → (y : Identifier) × (contains xs y ≡ true) × (p y ≡ true))
        → (y : Identifier) × ((y == x || contains xs y) ≡ true) × (p y ≡ true)
    go (inl hit) ih = (x, rw (path→eq x x refl) refl, hit)
    go (inr miss) ih = let r = ih (ground (arith, h, miss)) in (r.0, ground (arith, r.1), r.2)

any_of :
    (p : Identifier → Bool) (xs : List Identifier) (x : Identifier)
    → contains xs x ≡ true
    → p x ≡ true
    → any p xs ≡ true
any_of p [] x h px = absurd (false≢true h)
any_of p (y ∷ xs) x h px = go (Bool-cases (x == y)) (any_of p xs x)
  where
    go :
        ((x == y) ≡ true) ⊎ ((x == y) ≡ false)
        → (contains xs x ≡ true → p x ≡ true → any p xs ≡ true)
        → (p y || any p xs) ≡ true
    go (inl same) ih = rw (sym (ap p (eq→path x y same)) ∙ px) refl
    go (inr differ) ih = ground (arith, ih (ground (arith, h, differ)) px)

Bool_ext : (a b : Bool) → (a ≡ true → b ≡ true) → (b ≡ true → a ≡ true) → a ≡ b
Bool_ext true b f g = sym (f refl)
Bool_ext false true f g = g refl
Bool_ext false false f g = refl

stored_identifier_idempotent : (i : Identifier) → IsNormal (stored_identifier i)
unfolding validate_orcid_value
stored_identifier_idempotent i = ground (arith, starts_with-append "https://orcid.org/" i.1)

module _ (existing ext_identifiers : List Identifier) (normal : AreNormal existing)
    (a : Identifier) where
  abbrev given : List Identifier
  given = with_valid_type ext_identifiers

  abbrev is_stored_as : Identifier → Bool
  is_stored_as i = a == stored_identifier i

  abbrev is_new : Identifier → Bool
  is_new i = not (contains existing i)

  abbrev replaced : Bool
  replaced =
      (contains given a && contains existing a) || any is_stored_as (filter is_new (distinct given))

  contains-new :
      (i : Identifier)
      → contains (filter is_new (distinct given)) i
        ≡ (not (contains existing i) && contains given i)
  contains-new i =
      contains-filter is_new (distinct given) i
      ∙ ap (λ b. is_new i && b) (contains-distinct given i)

  replaced_if_given : any is_stored_as given ≡ true → replaced ≡ true
  replaced_if_given h =
      let w = any_witness is_stored_as given h in
      elim (Bool-cases (contains existing w.0)) [
        | inl old ↦
            let same = eq→path a (stored_identifier w.0) w.2 ∙ normal w.0 old in
            rw (ap (contains given) same ∙ w.1, ap (contains existing) same ∙ old) refl
        | inr fresh ↦
            let hit =
              any_of is_stored_as (filter is_new (distinct given)) w.0
                (rw (contains-new w.0, fresh, w.1) refl) w.2 in
            ground (arith, hit)
      ]

  given_if_new :
      any is_stored_as (filter is_new (distinct given)) ≡ true → any is_stored_as given ≡ true
  given_if_new h =
      let w = any_witness is_stored_as (filter is_new (distinct given)) h in
      any_of is_stored_as given w.0 (ground (arith, sym (contains-new w.0) ∙ w.1)) w.2

  given_if_kept : (contains given a && contains existing a) ≡ true → any is_stored_as given ≡ true
  given_if_kept h =
      any_of is_stored_as given a (ground (arith, h))
        (path→eq a (stored_identifier a) (sym (normal a (ground (arith, h)))))

  contains-replaced : contains (replaced_identifiers existing ext_identifiers) a ≡ replaced
  unfolding replaced_identifiers
  contains-replaced =
      rw
        (
          contains-append (filter (contains given) existing)
              (map stored_identifier (filter is_new (distinct given))) a,
          contains-filter (contains given) existing a,
          contains-map (filter is_new (distinct given)) a,
        )
        refl

  contains-expected :
      contains (replaced_identifiers existing ext_identifiers) a
      ≡ contains (expected ext_identifiers) a
  contains-expected =
      contains-replaced
      ∙ Bool_ext replaced (any is_stored_as given)
          (λ h. elim (Bool-cases (contains given a && contains existing a)) [
            | inl kept ↦ given_if_kept kept
            | inr not_kept ↦ given_if_new (ground (arith, h, not_kept))
          ])
          replaced_if_given
      ∙ sym (contains-map given a)

-- For a contributor whose identifiers are stored as they would be given, and for any given ones: an
-- identifier is stored after the update exactly when it is one of the given ones of a valid type,
-- an ORCID with its prefix. All of them are then stored as they would be given.
pub replaced_identifiers-AreNormal :
    (existing ext_identifiers : List Identifier)
    → AreNormal existing
    → ((a : Identifier)
        → contains (replaced_identifiers existing ext_identifiers) a
          ≡ contains (map stored_identifier (with_valid_type ext_identifiers)) a)
      × AreNormal (replaced_identifiers existing ext_identifiers)
replaced_identifiers-AreNormal existing ext_identifiers normal = (
  contains-expected existing ext_identifiers normal,
  λ a h.
      let w =
        any_witness (λ x. a == stored_identifier x) (with_valid_type ext_identifiers)
          (sym (contains-map (with_valid_type ext_identifiers) a)
            ∙ sym (contains-expected existing ext_identifiers normal a)
            ∙ h) in
      let e = eq→path a (stored_identifier w.0) w.2 in
      subst IsNormal (sym e) (stored_identifier_idempotent w.0),
)
