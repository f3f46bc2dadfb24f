-- ===== src/Entities/Updating.antt =====
-- What the resolution of a submitted entity does to the elected one: `resolve` of
-- app/services/entities/entity_resolution_service.py outside its safe mode.
use svp_harvester.Prelude.{
  String, Bool, true, false, cond, List, [], ◌∷◌, contains, ◌==◌, string_eq, pair_eq, nat_eq, ◌≡◌,
  refl, sym, ap, ◌∙◌, arith, Bool-cases, inl, inr, eq→path, false≢true,
}
use svp_harvester.Entities.{
  Identifier, Entity, NewEntity, remove_nullified_identifiers, update_entity, others_than,
}
use svp_harvester.Entities.Types.{has_type, IsDistinct}
use svp_harvester.Entities.Resolution.{
  IsExclusive, HasAll, IsOther, take_or_create_identifiers-IsResolved,
}

module _ (nullify : List String) where
  abbrev left : List Identifier → List Identifier
  left = remove_nullified_identifiers nullify

  left-has_type :
      (type : String) (is : List Identifier)
      → has_type type is ≡ false
      → has_type type (left is) ≡ false
  unfolding remove_nullified_identifiers
  left-has_type type [] h = h
  left-has_type type (i ∷ []) h = ground (arith, h)
  left-has_type type (i ∷ j ∷ is) h =
      ground (arith, h, left-has_type type (j ∷ is), left-has_type type is)

  left-IsDistinct : (is : List Identifier) → IsDistinct is → IsDistinct (left is)
  unfolding remove_nullified_identifiers
  left-IsDistinct [] d = d
  left-IsDistinct (i ∷ []) d = go (contains nullify i.0)
    where
      go : (b : Bool) → IsDistinct (cond b [] (i ∷ []))
      go true = tt
      go false = (refl, tt)
  left-IsDistinct (i ∷ j ∷ is) d =
      go (contains nullify i.0) (left-has_type i.0 (j ∷ is) d.0, left-IsDistinct (j ∷ is) d.1)
        (left-has_type j.0 is (d.1).0, left-IsDistinct is (d.1).1)
    where
      go :
          (b : Bool)
          → IsDistinct (i ∷ left (j ∷ is))
          → IsDistinct (j ∷ left is)
          → IsDistinct (cond b (j ∷ left is) (i ∷ left (j ∷ is)))
      go true kept passed = passed
      go false kept passed = kept

  left-loses :
      (is : List Identifier) (x : Identifier) → contains is x ≡ false → contains (left is) x ≡ false
  unfolding remove_nullified_identifiers
  left-loses [] x h = h
  left-loses (i ∷ []) x h = ground (arith, h)
  left-loses (i ∷ j ∷ is) x h = ground (arith, h, left-loses (j ∷ is) x, left-loses is x)

  -- A nullified identifier is not one of a type that is not nullified.
  differs :
      (x i : Identifier)
      → contains nullify x.0 ≡ false
      → contains nullify i.0 ≡ true
      → (x == i) ≡ false
  differs x i kept gone = elim (Bool-cases (x == i)) [
    | inr h ↦ h
    | inl h ↦ absurd (
        false≢true
          (sym kept ∙ ap (λ (y : Identifier). contains nullify y.0) (eq→path x i h) ∙ gone))
  ]

  left-kept :
      (is : List Identifier) (x : Identifier)
      → contains nullify x.0 ≡ false
      → contains (left is) x ≡ contains is x
  unfolding remove_nullified_identifiers
  left-kept [] x h = refl
  left-kept (i ∷ []) x h = elim (Bool-cases (contains nullify i.0)) [
    | inl gone ↦ rw (gone, differs x i h gone) refl
    | inr kept ↦ rw kept refl
  ]
  left-kept (i ∷ j ∷ is) x h = elim (Bool-cases (contains nullify i.0)) [
    | inl gone ↦ rw (gone, differs x i h gone, left-kept is x h) refl
    | inr kept ↦ rw (kept, left-kept (j ∷ is) x h) refl
  ]

-- The elected entity after the update.
pub record IsUpdated (submitted : NewEntity) (nullify : List String) (elected : Entity)
    (r : Entity × List Entity) : Type 0 where
  pub same_id : (r.0).id ≡ elected.id
  pub renamed : (r.0).name ≡ submitted.name
  pub all : HasAll submitted.identifiers (r.0).identifiers
  pub distinct : IsDistinct (r.0).identifiers
  pub exclusive : IsExclusive (r.0).identifiers r.1
  pub kept :
      (i : Identifier)
      → IsOther i submitted.identifiers
      → contains nullify i.0 ≡ false
      → contains (r.0).identifiers i ≡ contains elected.identifiers i

-- For a submitted entity with one identifier per type at most and an elected entity with one per type
-- at most, none of which belongs to another entity: after the update the elected entity has its id,
-- the submitted name and all submitted identifiers, one identifier per type at most, none of which
-- belongs to another entity, and of the types that are neither submitted nor nullified it has the
-- same identifiers as before.
pub update_entity-IsUpdated :
    (submitted : NewEntity) (nullify : List String) (elected : Entity) (entities : List Entity)
    → IsDistinct submitted.identifiers
    → IsDistinct elected.identifiers
    → IsExclusive elected.identifiers (others_than elected entities)
    → IsUpdated submitted nullify elected (update_entity submitted nullify elected entities)
unfolding update_entity
update_entity-IsUpdated submitted nullify elected entities ds distinct exclusive =
    let own = remove_nullified_identifiers nullify elected.identifiers in
    let r =
      take_or_create_identifiers-IsResolved submitted.identifiers own (others_than elected entities)
        ds (left-IsDistinct nullify elected.identifiers distinct)
        (λ i h. exclusive i (was_there i h)) in
    record {
      same_id = refl;
      renamed = refl;
      all = r.all;
      distinct = r.distinct;
      exclusive = r.exclusive;
      kept = λ i other not_nullified.
          r.kept i other ∙ left-kept nullify elected.identifiers i not_nullified;
    }
  where
    was_there :
        (i : Identifier)
        → contains (remove_nullified_identifiers nullify elected.identifiers) i ≡ true
        → contains elected.identifiers i ≡ true
    was_there i h = elim (Bool-cases (contains elected.identifiers i)) [
      | inl there ↦ there
      | inr missing ↦
          absurd (false≢true (sym (left-loses nullify elected.identifiers i missing) ∙ h))
    ]
