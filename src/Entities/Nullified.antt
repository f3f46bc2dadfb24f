-- ===== src/Entities/Nullified.antt =====
-- `_remove_nullified_identifiers` of app/services/entities/entity_resolution_service.py.
use svp_harvester.Prelude.{
  String, Bool, false, not, ◌&&◌, ◌||◌, List, [], ◌∷◌, filter, any, contains, string_eq, ◌≡◌, refl,
  arith,
}
use svp_harvester.Entities.{Identifier, remove_nullified_identifiers}

module _ (nullify : List String) where
  abbrev pub is_nullified : Identifier → Bool
  is_nullified i = contains nullify i.0

  -- Two identifiers that follow each other are nullified.
  abbrev pub has_neighbours : List Identifier → Bool
  has_neighbours [] = false
  has_neighbours (i ∷ []) = false
  has_neighbours (i ∷ j ∷ is) = (is_nullified i && is_nullified j) || has_neighbours (j ∷ is)

  neighbours-skip :
      (j : Identifier) (is : List Identifier)
      → is_nullified j ≡ false
      → has_neighbours (j ∷ is) ≡ has_neighbours is
  neighbours-skip j [] h = refl
  neighbours-skip j (k ∷ is) h = rw h refl

  remaining :
      (is : List Identifier)
      → any is_nullified (remove_nullified_identifiers nullify is) ≡ has_neighbours is
  unfolding remove_nullified_identifiers
  remaining [] = refl
  remaining (i ∷ []) = ground arith
  remaining (i ∷ j ∷ is) = ground (arith, remaining (j ∷ is), remaining is, neighbours-skip j is)

  no_neighbours :
      (is : List Identifier)
      → has_neighbours is ≡ false
      → remove_nullified_identifiers nullify is ≡ filter (λ i. not (is_nullified i)) is
  unfolding remove_nullified_identifiers
  no_neighbours [] h = refl
  no_neighbours (i ∷ []) h = ground arith
  no_neighbours (i ∷ j ∷ is) h =
      ground (arith, h, no_neighbours (j ∷ is), no_neighbours is, neighbours-skip j is)

-- For a list of identifier types to nullify and the identifiers of an entity: an identifier of a
-- nullified type remains exactly when two identifiers that follow each other have nullified types.
-- Otherwise the identifiers that remain are those of the other types, in their order.
pub remove_nullified_identifiers-filter :
    (nullify : List String) (is : List Identifier)
    → let left = remove_nullified_identifiers nullify is in
      (any (is_nullified nullify) left ≡ has_neighbours nullify is)
      × (has_neighbours nullify is ≡ false → left ≡ filter (λ i. not (is_nullified nullify i)) is)
remove_nullified_identifiers-filter nullify is = (remaining nullify is, no_neighbours nullify is)
