-- ===== src/Amqp/Answers.antt =====
-- What is published for a message: `_process_message` of app/amqp/amqp_message_processor.py.
use mathlib.Core.Option.{none-ne-some, some-ne-none, some-injective}
use svp_harvester.Prelude.{
  subst, if◌then◌else◌, ℕ, String, Bool, true, false, Option, none, some, List, [], ◌∷◌, ◌++◌, ◌≡◌,
  refl, sym, ◌∙◌, path→eq, string_eq, Bool-cases, inl, inr, if◌then◌else◌,
}
use svp_harvester.Prelude.Action.{Outcome, ok, raised, ◌>>=◌}
use svp_harvester.Entities.{Identifier}
use svp_harvester.Amqp.Worker.{Failure, invalid_entity}
use svp_harvester.Amqp.Processing.{
  Publication, retrieval_error, retrieval, Request, Services, arguments,
  has_no_bibliographic_identifiers, publish, retrieve, process_message, retrieve_if_valid,
  announce_and_run,
}

-- The entity of the message is one that can be retrieved: the identifiers, if so.
abbrev pub valid_identifiers : Outcome String (List Identifier) → Option (List Identifier)
valid_identifiers (raised message) = none
valid_identifiers (ok identifiers) =
    if has_no_bibliographic_identifiers identifiers then none else some identifiers

module _ {Fields : Type 0} (services : Services Fields) (request : Request Fields)
    (person : request.type ≡ some "person") where
  process_person :
      (published : List Publication)
      → process_message services request published
        ≡ retrieve_if_valid services request (services.validate request.fields) published
  unfolding process_message
  process_person published = rw (person, path→eq {A = String} "person" "person" refl) refl

  refuse :
      (published : List Publication) (o : Outcome String (List Identifier))
      → valid_identifiers o ≡ none
      → ((retrieve_if_valid services request o published).0 ≡ raised invalid_entity)
        × ((message : String) × ((retrieve_if_valid services request o published).1
              ≡ published ++ retrieval_error message ∷ []))
  unfolding retrieve publish ◌>>=◌
  refuse published (raised message) h = (refl, (message, refl))
  refuse published (ok identifiers) h =
      elim (Bool-cases (has_no_bibliographic_identifiers identifiers)) [
        | inl none_given ↦
            rw none_given (refl, ("No identifiers provided, retrieval aborted", refl))
        | inr given ↦ absurd (some-ne-none identifiers (rw given at h))
      ]

  accept :
      (published : List Publication) (o : Outcome String (List Identifier))
      (identifiers : List Identifier) (id : ℕ)
      → valid_identifiers o ≡ some identifiers
      → services.register (arguments services request) identifiers ≡ ok id
      → retrieve_if_valid services request o published ≡ (
          if request.reply
          then (ok tt, published ++ retrieval id ∷ [])
          else (services.run id, published))
  unfolding retrieve publish ◌>>=◌
  accept published (raised message) identifiers id h registered =
      absurd (none-ne-some identifiers h)
  accept published (ok given) identifiers id h registered =
      elim (Bool-cases (has_no_bibliographic_identifiers given)) [
        | inl none_given ↦ absurd (none-ne-some identifiers (rw none_given at h))
        | inr some_given ↦
            let same = some-injective given identifiers (rw some_given at h) in
            rw (some_given, same, registered) (run_lem request.reply)
      ]
    where
      run_lem :
          (reply : Bool)
          → announce_and_run services reply id published ≡ (
              if reply
              then (ok tt, published ++ retrieval id ∷ [])
              else (services.run id, published))
      run_lem true = refl
      run_lem false = refl

  pub process_message-refused :
      (published : List Publication)
      → valid_identifiers (services.validate request.fields) ≡ none
      → ((process_message services request published).0 ≡ raised invalid_entity)
        × ((message : String) × ((process_message services request published).1
              ≡ published ++ retrieval_error message ∷ []))
  process_message-refused published h =
      subst
        (λ (r : Outcome Failure (Unit {0}) × List Publication).
          (r.0 ≡ raised invalid_entity)
          × ((message : String) × (r.1 ≡ published ++ retrieval_error message ∷ [])))
        (sym (process_person published)) (refuse published (services.validate request.fields) h)

  pub process_message-registered :
      (published : List Publication) (identifiers : List Identifier) (id : ℕ)
      → valid_identifiers (services.validate request.fields) ≡ some identifiers
      → services.register (arguments services request) identifiers ≡ ok id
      → process_message services request published ≡ (
          if request.reply
          then (ok tt, published ++ retrieval id ∷ [])
          else (services.run id, published))
  process_message-registered published identifiers id h registered =
      process_person published
      ∙ accept published (services.validate request.fields) identifiers id h registered
