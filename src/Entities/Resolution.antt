-- ===== src/Entities/Resolution.antt =====
-- The identifiers of an entity after its resolution: `resolve` of
-- app/services/entities/entity_resolution_service.py.
use svp_harvester.Prelude.{
  String, true, false, List, [], ◌∷◌, any, contains, ◌==◌, string_eq, pair_eq, nat_eq, ◌≡◌, refl,
  sym, ◌∙◌, arith, Bool-cases, inl, inr, or_left, false≢true, subst, eq→path, path→eq, or_right,
  eq_sym,
}
use svp_harvester.Entities.{
  Identifier, Entity, take_or_create_identifier, take_or_create_identifiers,
}
use svp_harvester.Entities.Types.{IsDistinct}
use svp_harvester.Entities.Taking.{IsOwn, IsTaken, take_or_create_identifier-IsTaken}

-- No identifier of the entity belongs to another one.
abbrev pub IsExclusive : List Identifier → List Entity → Type 0
IsExclusive own others = (i : Identifier) → contains own i ≡ true → IsOwn i others

-- Of the submitted identifiers, the last one of each type is what the entity ends with.
abbrev pub HasAll : List Identifier → List Identifier → Type 0
HasAll [] own = Unit
HasAll (i ∷ is) own = (contains own i ≡ true) × HasAll is own

abbrev pub IsOther : Identifier → List Identifier → Type 0
IsOther i submitted = any (λ (j : Identifier). j.0 == i.0) submitted ≡ false

pub record IsResolved (submitted own : List Identifier) (r : List Identifier × List Entity)
    : Type 0 where
  pub all : HasAll submitted r.0
  pub distinct : IsDistinct r.0
  pub exclusive : IsExclusive r.0 r.1
  pub kept : (i : Identifier) → IsOther i submitted → contains r.0 i ≡ contains own i

-- Of a list with one identifier per type, an identifier of the type of another one is that one.
same_type :
    (is : List Identifier) (i : Identifier)
    → contains is i ≡ true
    → any (λ (j : Identifier). j.0 == i.0) is ≡ true
same_type [] i h = h
same_type (j ∷ is) i h = elim (Bool-cases (i == j)) [
  | inl same ↦
      or_left (any (λ (k : Identifier). k.0 == i.0) is)
        (subst (λ (x : Identifier). (x.0 == i.0) ≡ true) (eq→path i j same) (path→eq i.0 i.0 refl))
  | inr differ ↦ or_right (j.0 == i.0) (same_type is i (ground (arith, h, differ)))
]

distinct-same :
    (is : List Identifier) (i j : Identifier)
    → IsDistinct is
    → contains is i ≡ true
    → contains is j ≡ true
    → (i.0 == j.0) ≡ true
    → i ≡ j
distinct-same [] i j d hi hj same = absurd (false≢true hi)
distinct-same (k ∷ is) i j d hi hj same = elim (Bool-cases (i == k)) [
  | inl ik ↦ elim (Bool-cases (j == k)) [
    | inl jk ↦ eq→path i k ik ∙ sym (eq→path j k jk)
    | inr jk ↦ absurd (
        clash j
          ((eq→path k.0 j.0
            (subst (λ (x : Identifier). (x.0 == j.0) ≡ true) (eq→path i k ik) same)))
          (ground (arith, hj, jk)))
  ]
  | inr ik ↦ elim (Bool-cases (j == k)) [
    | inl jk ↦ absurd (
        clash i
          (sym (
            eq→path i.0 k.0
              (subst (λ (x : Identifier). (i.0 == x.0) ≡ true) (eq→path j k jk) same)))
          (ground (arith, hi, ik)))
    | inr jk ↦ distinct-same is i j d.1 (ground (arith, hi, ik)) (ground (arith, hj, jk)) same
  ]
]
  where
    clash : (y : Identifier) → k.0 ≡ y.0 → contains is y ≡ true → ⊥
    clash y e h =
        false≢true (
          sym (subst (λ t. any (λ (x : Identifier). x.0 == t) is ≡ false) e d.0) ∙ same_type is y h)

taken-IsExclusive :
    (type value : String) (own : List Identifier) (others : List Entity)
    (r : List Identifier × List Entity)
    → IsExclusive own others
    → IsTaken type value own others r
    → IsExclusive r.0 r.1
taken-IsExclusive type value own others r exclusive t i hi = elim (Bool-cases (i.0 == type)) [
  | inl same ↦
      subst (λ (x : Identifier). IsOwn x r.1)
        (sym (distinct-same r.0 i (type, value) t.distinct hi t.has same)) t.is_own
  | inr differ ↦ t.lost i (exclusive i (sym (t.kept i differ) ∙ hi))
]

-- For an entity with one identifier per type at most, none of which belongs to another entity, and
-- submitted identifiers with one per type at most: after the submitted identifiers are taken or
-- created one after the other, the entity has all of them, it still has one identifier per type at
-- most, none of its identifiers belongs to another entity, and of the types that are not submitted
-- it has the same identifiers as before.
pub take_or_create_identifiers-IsResolved :
    (submitted own : List Identifier) (others : List Entity)
    → IsDistinct submitted
    → IsDistinct own
    → IsExclusive own others
    → IsResolved submitted own (take_or_create_identifiers submitted (own, others))
unfolding take_or_create_identifiers
take_or_create_identifiers-IsResolved [] own others ds distinct exclusive = record {
  all = tt;
  distinct = distinct;
  exclusive = exclusive;
  kept = λ i h. refl;
}
take_or_create_identifiers-IsResolved (i ∷ is) own others ds distinct exclusive =
    let w = take_or_create_identifier i.0 i.1 (own, others) in
    let t = take_or_create_identifier-IsTaken i.0 i.1 own others distinct (exclusive i) in
    let r =
      take_or_create_identifiers-IsResolved is w.0 w.1 ds.1 t.distinct
        (taken-IsExclusive i.0 i.1 own others w exclusive t) in
    record {
      all = (r.kept i ds.0 ∙ t.has, r.all);
      distinct = r.distinct;
      exclusive = r.exclusive;
      kept = λ j h. r.kept j (ground (arith, h)) ∙ t.kept j (eq_sym j.0 i.0 ∙ ground (arith, h));
    }
