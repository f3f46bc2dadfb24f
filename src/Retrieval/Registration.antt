-- ===== src/Retrieval/Registration.antt =====
-- `register` of app/services/retrieval/retrieval_service.py: the check, the resolution of the entity and
-- the creation of the retrieval. The harvesters, which `register` also builds, are those of
-- `build_harvesters`. The types of the submitted identifiers are configured ones, which
-- the validation of a person ensures.
use svp_harvester.Prelude.{
  ℕ, suc, String, Bool, true, Option, none, some, List, ◌∷◌, any, ◌==◌, string_eq, nat_eq, ◌≡◌,
  refl, sym, ap, subst, inl, inr, path→eq, or_left,
}
use svp_harvester.Prelude.Action.{
  Outcome, ok, raised, Action, lift, ◌>>=◌, ◌>>◌, Outcome-cases, bind_of_ok, bind_of_raised,
}
use svp_harvester.Harvesting.Model.{EventType, Exception, Retrieval, Db}
use svp_harvester.Harvesting.Dao.{create_retrieval}
use svp_harvester.Entities.{Entity, NewEntity, resolve}
use svp_harvester.Retrieval.{check_entity_declaration_and_nullification}

-- The tables that a registration writes.
pub record Tables : Type 0 where
  pub entities : List Entity
  pub next_entity : ℕ
  pub db : Db

-- What a request says of the retrieval, besides its entity.
pub record RetrievalOptions : Type 0 where
  pub identifiers_safe_mode : Bool
  pub nullify : List String
  pub events : List EventType

abbrev pub Register : Type 0 → Type 0
Register A = Action Tables Exception A

-- `existing_entity or new_entity`: the elected entity, or the submitted one with a new id.
unfoldable pub save_entity : NewEntity → Option Entity × List Entity → Register ℕ
save_entity submitted (some elected, others) t =
    (ok elected.id, record t { entities = elected ∷ others })
save_entity submitted (none, others) t =
    let new : Entity = record {
      id = t.next_entity;
      name = submitted.name;
      identifiers = submitted.identifiers;
    } in
    (ok new.id, record t { entities = new ∷ others; next_entity = suc t.next_entity })

unfoldable pub save_retrieval : ℕ → List EventType → Register Retrieval
save_retrieval entity_id events t =
    let r = create_retrieval entity_id events t.db in (ok r.0, record t { db = r.1 })

unfoldable pub resolved :
    List String → NewEntity → RetrievalOptions → Register (Option Entity × List Entity)
resolved keys submitted options t =
    (resolve keys submitted options.nullify options.identifiers_safe_mode t.entities, t)

-- `register`
unfoldable pub register : List String → NewEntity → RetrievalOptions → Register Retrieval
register keys submitted options = do
  lift (check_entity_declaration_and_nullification submitted.identifiers options.nullify)
  existing ← resolved keys submitted options
  entity_id ← save_entity submitted existing
  save_retrieval entity_id options.events

-- A registration that raised changed nothing. One that returned stored the retrieval, with the
-- requested event types, for an entity that is stored.
pub data IsRegistered (options : RetrievalOptions) (t : Tables)
    : Outcome Exception Retrieval × Tables → Type 0 where
  refused : (error : Exception) → IsRegistered options t (raised error, t)
  registered :
      (retrieval : Retrieval) (u : Tables)
      → retrieval.event_types ≡ options.events
      → any (λ (e : Entity). e.id == retrieval.entity_id) u.entities ≡ true
      → u.db.retrievals ≡ retrieval ∷ t.db.retrievals
      → IsRegistered options t (ok retrieval, u)

saved-IsRegistered :
    (submitted : NewEntity) (options : RetrievalOptions) (t : Tables)
    (existing : Option Entity × List Entity)
    → IsRegistered options t
        ((save_entity submitted existing >>= λ id. save_retrieval id options.events) t)
unfolding save_entity save_retrieval create_retrieval ◌>>=◌
saved-IsRegistered submitted options t (some elected, others) =
    registered _ _ refl (or_left _ (path→eq elected.id elected.id refl)) refl
saved-IsRegistered submitted options t (none, others) =
    registered _ _ refl (or_left _ (path→eq t.next_entity t.next_entity refl)) refl

resolved-IsRegistered :
    (keys : List String) (submitted : NewEntity) (options : RetrievalOptions) (t : Tables)
    → IsRegistered options t (
        (resolved keys submitted options >>= λ existing.
        save_entity submitted existing >>= λ id. save_retrieval id options.events)
          t)
unfolding resolved
resolved-IsRegistered keys submitted options t =
    elim (Outcome-cases
      (resolve keys submitted options.nullify options.identifiers_safe_mode t.entities)) [
        | inl (existing, e) ↦
            subst (IsRegistered options t)
              (sym (
                bind_of_ok (resolved keys submitted options) _
                  (ap (λ (o : Outcome Exception (Option Entity × List Entity)). (o, t)) e)))
              (saved-IsRegistered submitted options t existing)
        | inr (error, e) ↦
            subst (IsRegistered options t)
              (sym (
                bind_of_raised (resolved keys submitted options) _
                  (ap (λ (o : Outcome Exception (Option Entity × List Entity)). (o, t)) e)))
              (refused error)
      ]

pub register-IsRegistered :
    (keys : List String) (submitted : NewEntity) (options : RetrievalOptions) (t : Tables)
    → IsRegistered options t (register keys submitted options t)
unfolding register lift
register-IsRegistered keys submitted options t =
    elim (Outcome-cases
      (check_entity_declaration_and_nullification submitted.identifiers options.nullify)) [
        | inl (done, e) ↦
            subst (IsRegistered options t)
              (sym (
                bind_of_ok
                  (lift (
                    check_entity_declaration_and_nullification submitted.identifiers
                      options.nullify))
                  _ (ap (λ (o : Outcome Exception (Unit {0})). (o, t)) e)))
              (resolved-IsRegistered keys submitted options t)
        | inr (error, e) ↦
            subst (IsRegistered options t)
              (sym (
                bind_of_raised
                  (lift (
                    check_entity_declaration_and_nullification submitted.identifiers
                      options.nullify))
                  _ (ap (λ (o : Outcome Exception (Unit {0})). (o, t)) e)))
              (refused error)
      ]
