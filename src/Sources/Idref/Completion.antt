-- ===== src/Sources/Idref/Completion.antt =====
-- `fetch_results` of app/harvesters/idref/idref_harvester.py reports each document: no query is left
-- pending, whatever the order in which the queries are completed.
use svp_harvester.Sources.Idref.{
  Doc, RawResult, Fetching, Fetch, Schedule, process_remaining, drain_if_full, read_doc,
  create_task, is_full, count_sudoc, modify, ◌>>=◌, drain_when, Bool, read_docs, nothing_fetched,
  fetch_with_sudoc, pure, is_sudoc, fetch_without_sudoc, not, fetch_results,
}
use svp_harvester.Sources.Idref.Reports.{
  AreSettled, AreReported, AreReported-nil, AreReported-Permᴰ,
}
use mathlib.Core.List.{Permᴰ}
use mathlib.Core.List.Permᴰ
use svp_harvester.Prelude.Permutations.{All-append_left}
use svp_harvester.Prelude.Action.{◌>>◌, modify, ◌>>=◌, Outcome, ok, bind_of_ok, pure}
use svp_harvester.Prelude.{
  true, false, cond, suc, true, Option, List, [], ◌∷◌, ◌++◌, ◌≡◌, refl, subst, append_assoc,
  append-nil, string_eq, ◌∙◌, All, sym, filter, All-append,
}
use svp_harvester.Harvesting.Model.{Exception}
use svp_harvester.Sources.Idref.Tracking.{Tracks, HasFinished, create_task-Tracks}
use svp_harvester.Sources.Idref.Waiting.{
  IsSchedule, HasKnownSource, Finishes, drain-Finishes, process_remaining-Finishes,
}

module _ (answer : Doc → Outcome Exception (Option RawResult)) where
  module _ (schedule : Schedule) (s : IsSchedule schedule) where
    -- The action returns and tracks the documents.
    abbrev Keeps : Fetch (Unit {0}) → List Doc → Fetching → Type 0
    Keeps m docs f = (f' : Fetching) × (m f ≡ (ok tt, f')) × Tracks answer docs f'

    drain_when-Keeps :
        (full : Bool) (docs : List Doc) (f : Fetching)
        → AreSettled answer docs
        → Tracks answer docs f
        → Keeps (drain_when answer schedule full) docs f
    unfolding drain_when
    drain_when-Keeps false docs f h t = (f, refl, t)
    drain_when-Keeps true docs f h t =
        let (f', returned, end) =
          drain-Finishes answer schedule s docs f.pending_queries 0 f.waits f.emitted h
            (record { done = t.done; reported = t.reported; others = t.others }) in
        (f', returned, end.tracked)

    read_doc-Keeps :
        (docs : List Doc) (doc : Doc) (f : Fetching)
        → HasKnownSource doc
        → AreSettled answer (docs ++ doc ∷ [])
        → Tracks answer docs f
        → Keeps (read_doc answer schedule doc) (docs ++ doc ∷ []) f
    unfolding read_doc create_task count_sudoc drain_if_full modify ◌>>=◌
    read_doc-Keeps docs doc f known h t =
        let u = create_task-Tracks answer docs doc f t in
        let (f', returned, kept) =
          drain_when-Keeps
            (is_full
              (cond (is_sudoc doc) (suc f.num_sudoc_waiting_queries) f.num_sudoc_waiting_queries))
            (docs ++ doc ∷ [])
            (record f {
              pending_queries = f.pending_queries ++ doc ∷ [];
              num_sudoc_waiting_queries =
                  cond (is_sudoc doc) (suc f.num_sudoc_waiting_queries) f.num_sudoc_waiting_queries;
            })
            h (record { done = u.done; reported = u.reported; others = u.others }) in
        (f', rw known returned, kept)

    read_docs-Keeps :
        (before docs : List Doc) (f : Fetching)
        → All HasKnownSource docs
        → AreSettled answer (before ++ docs)
        → Tracks answer before f
        → Keeps (read_docs answer schedule docs) (before ++ docs) f
    unfolding read_docs pure
    read_docs-Keeps before [] f known h t =
        (f, refl, subst (λ l. Tracks answer l f) (sym (append-nil before)) t)
    read_docs-Keeps before (doc ∷ docs) f known h t =
        let (f', returned, kept) =
          read_doc-Keeps before doc f known.0
            (All-append_left _ (before ++ doc ∷ []) docs
              (rw (append_assoc before (doc ∷ []) docs) h))
            t in
        let (f'', later, end) =
          read_docs-Keeps (before ++ doc ∷ []) docs f' known.1
            (rw (append_assoc before (doc ∷ []) docs) h) kept in
        (
          f'',
          bind_of_ok (read_doc answer schedule doc) (λ _. read_docs answer schedule docs) returned
              ∙ later,
          subst (λ l. Tracks answer l f'') (append_assoc before (doc ∷ []) docs) end,
        )

    nothing-Tracks : Tracks answer [] nothing_fetched
    nothing-Tracks = record { done = []; reported = AreReported-nil answer; others = Permᴰ.nil }

    fetch_with_sudoc-Finishes :
        (docs : List Doc)
        → All HasKnownSource docs
        → AreSettled answer docs
        → Finishes answer schedule s (fetch_with_sudoc answer schedule docs) docs nothing_fetched
    unfolding fetch_with_sudoc
    fetch_with_sudoc-Finishes docs known h =
        let (f', returned, kept) = read_docs-Keeps [] docs nothing_fetched known h nothing-Tracks in
        let (f'', later, end) = process_remaining-Finishes answer schedule s docs f' h kept in
        (
          f'',
          bind_of_ok (read_docs answer schedule docs) (λ _. process_remaining answer schedule)
                returned
              ∙ later,
          end,
        )

    -- A query that is waited for before the next one is made.
    one_query-Finishes :
        (before : List Doc) (doc : Doc) (f : Fetching)
        → HasKnownSource doc
        → AreSettled answer (before ++ doc ∷ [])
        → HasFinished answer before f
        → Finishes answer schedule s
            (create_task doc >> process_remaining answer schedule)
            (before ++ doc ∷ [])
            f
    unfolding create_task modify ◌>>=◌
    one_query-Finishes before doc f known h t = rw known (
        process_remaining-Finishes answer schedule s (before ++ doc ∷ [])
          (record f { pending_queries = f.pending_queries ++ doc ∷ [] }) h
          (create_task-Tracks answer before doc f t.tracked))

    fetch_without_sudoc-Finishes :
        (before docs : List Doc) (f : Fetching)
        → All HasKnownSource docs
        → AreSettled answer before
        → AreSettled answer docs
        → HasFinished answer before f
        → Finishes answer schedule s
            (fetch_without_sudoc answer schedule docs)
            (before ++ filter (λ d. not (is_sudoc d)) docs)
            f
    unfolding fetch_without_sudoc pure
    fetch_without_sudoc-Finishes before [] f known h k t =
        (f, refl, subst (λ l. HasFinished answer l f) (sym (append-nil before)) t)
    fetch_without_sudoc-Finishes before (doc ∷ docs) f known h k t =
        go (is_sudoc doc) (fetch_without_sudoc-Finishes before docs f known.1 h k.1 t)
          (λ f'. fetch_without_sudoc-Finishes (before ++ doc ∷ []) docs f' known.1 with_doc k.1)
      where
        rest : List Doc
        rest = filter (λ d. not (is_sudoc d)) docs

        with_doc : AreSettled answer (before ++ doc ∷ [])
        with_doc = All-append _ before (doc ∷ []) h (k.0, tt)

        go :
            (b : Bool)
            → Finishes answer schedule s
                (fetch_without_sudoc answer schedule docs)
                (before ++ rest)
                f
            → ((f' : Fetching)
                → HasFinished answer (before ++ doc ∷ []) f'
                → Finishes answer schedule s
                    (fetch_without_sudoc answer schedule docs)
                    ((before ++ doc ∷ []) ++ rest)
                    f')
            → Finishes answer schedule s
                (cond b (fetch_without_sudoc answer schedule docs) (
                  create_task doc
                  >> process_remaining answer schedule
                  >> fetch_without_sudoc answer schedule docs))
                (before ++ cond (not b) (doc ∷ rest) rest)
                f
        go true skipped waited = skipped
        go false skipped waited =
            let (f', returned, end) = one_query-Finishes before doc f known.0 with_doc t in
            let (f'', later, finished) = waited f' end in
            (
              f'',
              bind_of_ok (create_task doc >> process_remaining answer schedule)
                    (λ _. fetch_without_sudoc answer schedule docs) returned
                  ∙ later,
              subst (λ l. HasFinished answer l f'') (append_assoc before (doc ∷ []) rest) finished,
            )

    finished-AreReported :
        (docs : List Doc) (f : Fetching)
        → HasFinished answer docs f
        → AreReported answer f.emitted docs
    finished-AreReported docs f h =
        AreReported-Permᴰ answer f.emitted h.tracked.done docs
          (Permᴰ.symm (
            subst (λ l. Permᴰ docs l) (append-nil h.tracked.done)
              (subst (λ l. Permᴰ docs (h.tracked.done ++ l)) h.none_pending h.tracked.others)))
          h.tracked.reported

-- The documents that are looked up.
abbrev pub looked_up : Bool → List Doc → List Doc
looked_up sudoc_enabled docs = cond sudoc_enabled docs (filter (λ d. not (is_sudoc d)) docs)

-- For any schedule that completes a task whenever one is waited for, and documents of known sources
-- whose queries answer or fail in a way that is recorded: with SUDOC or without, the harvesting ends
-- with no query pending. For every document that is looked up it has yielded the result, if there
-- is one, or recorded the failure, once each in some order, and beyond that has only yielded again
-- results of such documents, and none if every query succeeded.
pub fetch_results-AreReported :
    (answer : Doc → Outcome Exception (Option RawResult)) (schedule : Schedule)
    → IsSchedule schedule
    → (sudoc_enabled : Bool) (docs : List Doc) → All HasKnownSource docs
    → AreSettled answer docs
    → (f : Fetching) × (fetch_results answer schedule sudoc_enabled docs nothing_fetched
        ≡ (ok tt, f))
      × (f.pending_queries ≡ [])
      × AreReported answer f.emitted (looked_up sudoc_enabled docs)
unfolding fetch_results
fetch_results-AreReported answer schedule s true docs known h =
    let (f, returned, end) = fetch_with_sudoc-Finishes answer schedule s docs known h in
    (f, returned, end.none_pending, finished-AreReported answer schedule s docs f end)
fetch_results-AreReported answer schedule s false docs known h =
    let (f, returned, end) =
      fetch_without_sudoc-Finishes answer schedule s [] docs nothing_fetched known tt h
        (record { tracked = nothing-Tracks answer schedule s; none_pending = refl }) in
    (
      f,
      returned,
      end.none_pending,
      finished-AreReported answer schedule s (filter (λ d. not (is_sudoc d)) docs) f end,
    )
