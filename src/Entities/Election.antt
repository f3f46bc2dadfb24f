-- ===== src/Entities/Election.antt =====
-- Which of several matching entities is elected: `resolve` of
-- app/services/entities/entity_resolution_service.py, with the configured identifiers of
-- identifiers.yml.
use svp_harvester.Prelude.{
  String, Option, List, [], ◌∷◌, contains, string_eq, ◌≡◌, refl, ap, ℕ, ◌∙◌,
}
use svp_harvester.Entities.{
  Identifier, Entity, priority, with_priorities, elect, with_priority, head_of_sorted,
}

-- Two configurations with the same keys, in whatever order.
abbrev pub HaveSameKeys : List String → List String → Type 0
HaveSameKeys keys others = (key : String) → contains keys key ≡ contains others key

module _ (keys others : List String) (same : HaveSameKeys keys others) where
  priority-same :
      (id : ℕ) (name : Option String) (identifiers : List Identifier)
      → priority keys record { id = id; name = name; identifiers = identifiers }
        ≡ priority others record { id = id; name = name; identifiers = identifiers }
  unfolding priority
  priority-same id name [] = refl
  priority-same id name (i ∷ is) = rw (same i.0) refl

  with_priorities-same :
      (matching : List Entity) → with_priorities keys matching ≡ with_priorities others matching
  with_priorities-same [] = refl
  with_priorities-same (e ∷ es) =
      ap (λ p. with_priority p e (with_priorities keys es))
        (priority-same e.id e.name e.identifiers)
      ∙ ap (with_priority (priority others e) e) (with_priorities-same es)

pub elect-same_keys :
    (keys others : List String) (matching : List Entity)
    → HaveSameKeys keys others
    → elect keys matching ≡ elect others matching
unfolding elect
elect-same_keys keys others matching same =
    ap head_of_sorted (with_priorities-same keys others same matching)
