-- ===== src/Entities/Taking.antt =====
-- `EntityDAO.take_or_create_identifier` of app/db/daos/entity_dao.py.
use svp_harvester.Prelude.{
  String, Bool, true, false, not, ◌||◌, List, [], ◌∷◌, ◌++◌, filter, any, contains, ◌==◌, string_eq,
  pair_eq, ◌≡◌, refl, ◌∙◌, arith, path→eq, Bool-cases, inl, inr, or_left, or_right, contains-append,
}
use svp_harvester.Entities.Types.{
  has_type, IsDistinct, remove_type-gone, remove_type-IsDistinct, given_away, other_type,
  remove_type-kept, replace_value-IsDistinct, replace_value-contains, replace_value-kept,
  append-IsDistinct,
}
use svp_harvester.Entities.{
  Identifier, Entity, has_identifier_of_type, give_away, replace_value, remove_type,
  take_or_create_identifier,
}

-- No other entity has the identifier.
abbrev pub IsOwn : Identifier → List Entity → Type 0
IsOwn identifier others = any (λ (e : Entity). contains e.identifiers identifier) others ≡ false

give_away-IsOwn :
    (identifier : Identifier) (others : List Entity)
    → IsOwn identifier (give_away identifier others)
give_away-IsOwn identifier [] = refl
give_away-IsOwn identifier (e ∷ es) =
    rw (given_away identifier e.identifiers, give_away-IsOwn identifier es) refl

filtered-loses :
    (p : Identifier → Bool) (is : List Identifier) (i : Identifier)
    → contains is i ≡ false
    → contains (filter p is) i ≡ false
filtered-loses p [] i h = h
filtered-loses p (j ∷ is) i h = ground (arith, h, filtered-loses p is i)

give_away-loses :
    (identifier i : Identifier) (others : List Entity)
    → IsOwn i others
    → IsOwn i (give_away identifier others)
give_away-loses identifier i [] h = h
give_away-loses identifier i (e ∷ es) h =
    rw
      (
        filtered-loses (λ j. not (j == identifier)) e.identifiers i (ground (arith, h)),
        give_away-loses identifier i es (ground (arith, h)),
      )
      refl

-- What one submitted identifier leads to.
pub record IsTaken (type value : String) (own : List Identifier) (others : List Entity)
    (r : List Identifier × List Entity) : Type 0 where
  pub has : contains r.0 (type, value) ≡ true
  pub distinct : IsDistinct r.0
  pub kept : (i : Identifier) → (i.0 == type) ≡ false → contains r.0 i ≡ contains own i
  pub is_own : IsOwn (type, value) r.1
  pub lost : (i : Identifier) → IsOwn i others → IsOwn i r.1

or_false : (b : Bool) → (b || false) ≡ b
or_false b = ground arith

appended :
    (type value : String) (own : List Identifier) (others : List Entity)
    → IsDistinct own
    → has_type type own ≡ false
    → IsOwn (type, value) others
    → IsTaken type value own others (own ++ (type, value) ∷ [], others)
appended type value own others distinct absent is_own = record {
  has =
      contains-append own ((type, value) ∷ []) (type, value)
      ∙ or_right (contains own (type, value))
          (or_left _ (path→eq {A = Identifier} (type, value) (type, value) refl));
  distinct = append-IsDistinct own (type, value) distinct absent;
  kept = λ i h.
      contains-append own ((type, value) ∷ []) i
      ∙ rw (other_type i (type, value) type h (path→eq type type refl)) (or_false (contains own i));
  is_own = is_own;
  lost = λ i h. h;
}

moved :
    (type value : String) (own : List Identifier) (others : List Entity)
    → IsDistinct own
    → IsTaken type value own others
        (remove_type type own ++ (type, value) ∷ [], give_away (type, value) others)
moved type value own others distinct =
    let r =
      appended type value (remove_type type own) (give_away (type, value) others)
        (remove_type-IsDistinct type own distinct) (remove_type-gone type own distinct)
        (give_away-IsOwn (type, value) others) in
    record {
      has = r.has;
      distinct = r.distinct;
      kept = λ i h. r.kept i h ∙ remove_type-kept type own i h;
      is_own = r.is_own;
      lost = λ i h. give_away-loses (type, value) i others h;
    }

replaced :
    (type value : String) (own : List Identifier) (others : List Entity)
    → IsDistinct own
    → has_type type own ≡ true
    → IsOwn (type, value) others
    → IsTaken type value own others (replace_value type value own, others)
replaced type value own others distinct present is_own = record {
  has = replace_value-contains type value own present;
  distinct = replace_value-IsDistinct type value own distinct;
  kept = replace_value-kept type value own;
  is_own = is_own;
  lost = λ i h. h;
}

-- For an entity with one identifier per type at most, whose identifiers belong to no other entity:
-- after an identifier is taken or created, the entity has it and no other entity does, the entity
-- still has one identifier per type at most, its identifiers of other types are the same, and no
-- other entity gains an identifier.
pub take_or_create_identifier-IsTaken :
    (type value : String) (own : List Identifier) (others : List Entity)
    → IsDistinct own
    → (contains own (type, value) ≡ true → IsOwn (type, value) others)
    → IsTaken type value own others (take_or_create_identifier type value (own, others))
unfolding take_or_create_identifier has_identifier_of_type
take_or_create_identifier-IsTaken type value own others distinct exclusive =
    elim (Bool-cases (contains own (type, value))) [
      | inl mine ↦
          rw (take_or_create_identifier, mine)
            record {
              has = mine;
              distinct = distinct;
              kept = λ i h. refl;
              is_own = exclusive mine;
              lost = λ i h. h;
            }
      | inr not_mine ↦
          elim (Bool-cases (any (λ (e : Entity). contains e.identifiers (type, value)) others)) [
            | inl theirs ↦
                rw (take_or_create_identifier, not_mine, theirs)
                  (moved type value own others distinct)
            | inr free ↦ elim (Bool-cases (has_type type own)) [
              | inl typed ↦
                  rw (take_or_create_identifier, not_mine, free, has_identifier_of_type, typed)
                    (replaced type value own others distinct typed free)
              | inr untyped ↦
                  rw (take_or_create_identifier, not_mine, free, has_identifier_of_type, untyped)
                    (appended type value own others distinct untyped free)
            ]
          ]
    ]
