-- ===== src/Concepts/Storing.antt =====
-- `_get_or_create_concept_by_uri` of app/harvesters/abstract_references_converter.py does what the look-up,
-- insert and retry of the other shared objects do, unless the retry fails as for JEL concepts.
use svp_harvester.Concepts.{
  ConceptInformations, ConceptError, Environment, Source, jel, complete_information,
  dereferencing_error, idref, wikidata, abes,
}
use svp_harvester.Concepts.Completing.{FindsCode, complete_information_twice, again}
use svp_harvester.Concepts.GetOrCreate.{
  NewConcept, Concept, Concepts, make, has_uri_of, is_complete, get_concept_by_uri, uri_or_empty,
  exception, with_label, solved, Call, create, find_or_create, attempt_by_uri, second_call,
  get_or_create_concept_by_uri, violated_again,
}
use mathlib.Core.Option.{some-injective}
use svp_harvester.Tables.{
  interfere, insert_all, insert, first, refuses, commit, get_or_create, attempt,
}
use svp_harvester.Prelude.{
  ◌++◌, suc, any, any-append, ◌||◌, filter-nil, String, Bool, true, false, Option, none, some, List,
  [], ◌∷◌, ◌≡◌, ◌≢◌, ◌⊎◌, inl, inr, refl, sym, ap, ◌∙◌, filter, ◌==◌, string_eq, path→eq, eq→path,
  arith, subst,
}
use svp_harvester.Prelude.Action.{Outcome, ok, raised, Action, raise}
use svp_harvester.Harvesting.Model.{Exception}
use svp_harvester.Harvesting.Converter.{other_error}
use svp_harvester.Tables.Steps.{
  first-one_or_none, attempt_of_found, attempt_of_made, attempt_of_refused, attempt_of_raised,
}
use svp_harvester.Tables.Race.{IsUnique, IsStored, IsKeyed, get_or_create-IsStored}

-- The solvers answer a concept with the URI of the informations, or that it cannot be dereferenced.
pub record IsSolver (solve : ConceptInformations → Outcome ConceptError NewConcept) : Type 0 where
  pub answers :
      (c : ConceptInformations)
      → ((new : NewConcept) × (solve c ≡ ok new) × (new.uri ≡ uri_or_empty c.uri))
        ⊎ (solve c ≡ raised dereferencing_error)

abbrev insertable : NewConcept → List Concept → Bool
insertable = refuses has_uri_of is_complete

concepts-IsKeyed : IsKeyed has_uri_of make is_complete
concepts-IsKeyed = record {
  made = λ id new valid. path→eq new.uri new.uri refl;
  same = λ id new other row h. ap (λ uri. row.uri == uri) (sym (eq→path new.uri other.uri h));
}

module _ (environment : Environment)
    (solve : ConceptInformations → Outcome ConceptError NewConcept) where
  -- What is made of completed informations.
  record IsMade (c : ConceptInformations) : Type 0 where
    new : NewConcept
    made : solved (solve c) c ≡ ok new
    its_uri : new.uri ≡ uri_or_empty c.uri

  with_label-uri :
      (label : Option String) (c : ConceptInformations)
      → (with_label label c).uri ≡ uri_or_empty c.uri
  with_label-uri none c = refl
  with_label-uri (some label) c = refl

  solved-IsMade : IsSolver solve → (c : ConceptInformations) → IsMade c
  solved-IsMade law c = elim (law.answers c) [
    | inl (new, e, same) ↦ record {
      new = record new { dereferenced = true };
      made = ap (λ o. solved o c) e;
      its_uri = same;
    }
    | inr e ↦ record {
      new = with_label c.label c;
      made = ap (λ o. solved o c) e;
      its_uri = with_label-uri c.label c;
    }
  ]

  module _ (retry : Call environment solve) (retry' : Action Concepts Exception Concept)
      (c : ConceptInformations) (m : IsMade c) (same : (s : Concepts) → retry c s ≡ retry' s)
      (s : Concepts) where
    created-attempt :
        (o : Option Concept)
        → get_concept_by_uri m.new s.rows ≡ ok none
        → (commit make insertable m.new s).0 ≡ o
        → create environment solve retry c (ok m.new) s
          ≡ attempt make insertable get_concept_by_uri retry' m.new s
    created-attempt (some row) missing e =
        ground (
          arith,
          e,
          attempt_of_made make insertable get_concept_by_uri retry' m.new s row missing e,
        )
    created-attempt none missing e = ground (
      arith,
      e,
      same (commit make insertable m.new s).1,
      attempt_of_refused make insertable get_concept_by_uri retry' m.new s missing e,
    )

    found-attempt :
        (o : Outcome Exception (Option Concept))
        → get_concept_by_uri m.new s.rows ≡ o
        → find_or_create environment solve retry c o s
          ≡ attempt make insertable get_concept_by_uri retry' m.new s
    found-attempt (raised e) h =
        sym (attempt_of_raised make insertable get_concept_by_uri retry' m.new s e h)
    found-attempt (ok (some row)) h =
        sym (attempt_of_found make insertable get_concept_by_uri retry' m.new s row h)
    found-attempt (ok none) h =
        ap (λ o. create environment solve retry c o s) m.made
        ∙ created-attempt (commit make insertable m.new s).0 h refl

    -- A call goes as the general one for what is made of the informations.
    attempt_by_uri-attempt :
        attempt_by_uri environment solve retry (ok c) s
        ≡ attempt make insertable get_concept_by_uri retry' m.new s
    unfolding attempt_by_uri get_concept_by_uri
    attempt_by_uri-attempt =
        ap
          (λ uri.
            find_or_create environment solve retry c
              (get_concept_by_uri (record { uri = uri; labels = []; dereferenced = false }) s.rows)
              s)
          (sym m.its_uri)
        ∙ found-attempt (get_concept_by_uri m.new s.rows) refl

  refined :
      (c d : ConceptInformations) (m : IsMade d)
      → complete_information environment c ≡ ok d
      → complete_information environment d ≡ ok d
      → (s : Concepts)
      → get_or_create_concept_by_uri environment solve c s
        ≡ get_or_create make insertable get_concept_by_uri m.new s
  unfolding get_or_create_concept_by_uri get_or_create raise
  refined c d m first_time second_time s =
      ap (λ o. attempt_by_uri environment solve (second_call environment solve) o s) first_time
      ∙ attempt_by_uri-attempt (second_call environment solve)
          (attempt make insertable get_concept_by_uri
            (raise (other_error "violation cannot occur twice")) m.new)
          d m
          (λ t.
            ap (λ o. attempt_by_uri environment solve (violated_again environment solve) o t)
              second_time
            ∙ attempt_by_uri-attempt (violated_again environment solve)
                (raise (other_error "violation cannot occur twice")) d m (λ u. refl) t)
          s

  again_ok :
      (source : Source) (d : ConceptInformations)
      → d.source ≡ some source
      → d.source ≢ some jel
      → again environment source d ≡ ok d
  again_ok idref d its other = refl
  again_ok wikidata d its other = refl
  again_ok jel d its other = absurd (other its)
  again_ok abes d its other = refl

  again_fails :
      (source : Source) (d : ConceptInformations)
      → d.source ≡ some source
      → d.source ≡ some jel
      → again environment source d ≡ raised dereferencing_error
  again_fails source d its jels =
      ap (λ x. again environment x d) (some-injective source jel (sym its ∙ jels))

  module _ (law : IsSolver solve) (c d : ConceptInformations) (found : FindsCode environment d)
      (completed : complete_information environment c ≡ ok d) where
    pub get_or_create_concept_by_uri-IsStored :
        (s : Concepts)
        → d.source ≢ some jel
        → IsUnique has_uri_of s.rows
        → IsStored has_uri_of
            (with_label none d)
            (get_or_create_concept_by_uri environment solve c s)
    get_or_create_concept_by_uri-IsStored s other unique =
        let (source, its, twice) = complete_information_twice environment c d found completed in
        let m = solved-IsMade law d in
        let stored =
          get_or_create-IsStored has_uri_of make is_complete concepts-IsKeyed get_concept_by_uri
            (λ n rows. unfold get_concept_by_uri in first-one_or_none (filter (has_uri_of n) rows))
            m.new s refl unique in
        let e = sym (refined c d m completed (twice ∙ again_ok source d its other) s) in
        subst (IsStored has_uri_of (with_label none d)) e (record {
          row = stored.row;
          returned = stored.returned;
          only =
              subst
                (λ uri.
                  filter (λ row. row.uri == uri)
                    (get_or_create make insertable get_concept_by_uri m.new s).1.rows
                  ≡ stored.row ∷ [])
                m.its_uri stored.only;
          unique = stored.unique;
        })

    -- The table after the insert of the other process.
    abbrev overtaken : NewConcept → List (List NewConcept) → Concepts → Concepts
    overtaken rival later s = record {
      rows = s.rows ++ make s.next_id rival ∷ [];
      next_id = suc s.next_id;
      concurrent = later;
    }

    commit-overtaken :
        (new rival : NewConcept) (later : List (List NewConcept)) (s : Concepts)
        → rival.uri ≡ new.uri
        → any (has_uri_of rival) s.rows ≡ false
        → s.concurrent ≡ (rival ∷ []) ∷ later
        → commit make insertable new s ≡ (none, overtaken rival later s)
    unfolding commit interfere insert_all insert
    commit-overtaken new rival later s same fresh race =
        rw
          (
            race,
            fresh,
            any-append (has_uri_of new) s.rows (make s.next_id rival ∷ [])
                (ap (λ b. b || false) (path→eq rival.uri new.uri same)),
          )
          refl

    -- For any solver that answers a concept with the URI of the informations or that it cannot be
    -- dereferenced, and informations that can be completed and are about a JEL concept: if another
    -- process inserts a concept with its URI, which the table lacked, between the look-up and the commit
    -- of a call, then the call fails with the error that the concept cannot be dereferenced, although
    -- the table now has it.
    pub get_or_create_concept_by_uri-raced :
        (rival : NewConcept) (later : List (List NewConcept)) (s : Concepts)
        → d.source ≡ some jel
        → rival.uri ≡ uri_or_empty d.uri
        → any (has_uri_of rival) s.rows ≡ false
        → s.concurrent ≡ (rival ∷ []) ∷ later
        → get_or_create_concept_by_uri environment solve c s
          ≡ (raised (exception dereferencing_error), overtaken rival later s)
    unfolding get_or_create_concept_by_uri
    get_or_create_concept_by_uri-raced rival later s jels same fresh race =
        let (source, its, twice) = complete_information_twice environment c d found completed in
        let m = solved-IsMade law d in
        let lost = commit-overtaken m.new rival later s (same ∙ sym m.its_uri) fresh race in
        let missing : get_concept_by_uri m.new s.rows ≡ ok none =
          unfold get_concept_by_uri in
          ap (λ l. ok (first l))
            (filter-nil (has_uri_of m.new) s.rows (
              subst (λ uri. any (λ row. row.uri == uri) s.rows ≡ false) (same ∙ sym m.its_uri)
                fresh)) in
        ap (λ o. attempt_by_uri environment solve (second_call environment solve) o s) completed
        ∙ attempt_by_uri-attempt (second_call environment solve) (second_call environment solve d) d
            m (λ t. refl) s
        ∙ attempt_of_refused make insertable get_concept_by_uri (second_call environment solve d)
            m.new s missing (ap (λ (r : Option Concept × Concepts). r.0) lost)
        ∙ ap (λ (r : Option Concept × Concepts). second_call environment solve d r.1) lost
        ∙ ap
            (λ o.
              attempt_by_uri environment solve (violated_again environment solve) o
                (overtaken rival later s))
            (twice ∙ again_fails source d its jels)
