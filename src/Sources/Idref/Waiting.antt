-- ===== src/Sources/Idref/Waiting.antt =====
-- The loops of `fetch_results` of app/harvesters/idref/idref_harvester.py that wait for queries end, and
-- report each query.
use svp_harvester.Sources.Idref.{
  Doc, RawResult, Emission, Fetching, Fetch, Schedule, secondary_sources, drain, wait_for_remaining,
  process_remaining, report_round, none,
}
use svp_harvester.Sources.Idref.Reports.{AreSettled}
use svp_harvester.Sources.Idref.Rounds.{
  report_each-reports, reports-AreReported, report_round-AreReported,
}
use mathlib.Core.List.{Permᴰ}
use svp_harvester.Prelude.Permutations.{All-Permᴰ, All-append_left}
use svp_harvester.Prelude.Action.{Outcome, ok, bind_of_ok}
use svp_harvester.Prelude.{
  true, zero, ℕ, suc, ◌<◌, true, Option, List, [], ◌∷◌, ◌++◌, ◌≡◌, refl, append-nil, contains,
  length, string_eq, ◌≤◌, arith, ◌∙◌,
}
use svp_harvester.Harvesting.Model.{Exception}
use svp_harvester.Sources.Idref.Tracking.{Tracks, HasFinished, pending-AreSettled, Tracks-report}

-- The completed tasks come in some order, and a call that waits for the first completion finds one.
pub record IsSchedule (schedule : Schedule) : Type 0 where
  pub ordered : (n : ℕ) (docs : List Doc) → Permᴰ docs (schedule.all_completed n docs)
  pub divided :
      (n : ℕ) (docs : List Doc)
      → Permᴰ docs ((schedule.first_completed n docs).0 ++ (schedule.first_completed n docs).1)
  pub progress :
      (n : ℕ) (doc : Doc) (docs : List Doc)
      → length (schedule.first_completed n (doc ∷ docs)).1 < length (doc ∷ docs)

abbrev pub HasKnownSource : Doc → Type 0
HasKnownSource doc = contains secondary_sources doc.secondary_source ≡ true

module _ (answer : Doc → Outcome Exception (Option RawResult)) where
  module _ (schedule : Schedule) (s : IsSchedule schedule) where
    -- The action returns, and what holds afterwards.
    abbrev pub Finishes : Fetch (Unit {0}) → List Doc → Fetching → Type 0
    Finishes m docs f = (f' : Fetching) × (m f ≡ (ok tt, f')) × HasFinished answer docs f'

    pub drain-Finishes :
        (docs pending : List Doc) (sudoc waits : ℕ) (emitted : List Emission)
        → let f : Fetching = record {
          pending_queries = pending;
          num_sudoc_waiting_queries = sudoc;
          waits = waits;
          emitted = emitted;
        } in
          AreSettled answer docs → Tracks answer docs f → Finishes (drain answer schedule) docs f
    unfolding drain
    drain-Finishes docs [] sudoc waits emitted h t =
        (_, refl, record { tracked = t; none_pending = refl })
    drain-Finishes docs (d ∷ ds) sudoc waits emitted h t = (
      _,
      report_each-reports answer (schedule.all_completed waits (d ∷ ds)) _
          (All-Permᴰ _ (s.ordered waits (d ∷ ds)) (pending-AreSettled answer docs _ h t)),
      record {
        tracked =
            Tracks-report answer docs (schedule.all_completed waits (d ∷ ds)) [] _ _ sudoc
              (suc waits)
              (rw (append-nil (schedule.all_completed waits (d ∷ ds))) (s.ordered waits (d ∷ ds)))
              (reports-AreReported answer _) t;
        none_pending = refl;
      },
    )

    wait_for_remaining-Finishes :
        (docs : List Doc) (fuel : ℕ) (pending : List Doc) (sudoc waits : ℕ)
        (emitted : List Emission)
        → let f : Fetching = record {
          pending_queries = pending;
          num_sudoc_waiting_queries = sudoc;
          waits = waits;
          emitted = emitted;
        } in
          length pending ≤ fuel
          → AreSettled answer docs
          → Tracks answer docs f
          → Finishes (wait_for_remaining answer schedule fuel) docs f
    unfolding wait_for_remaining
    wait_for_remaining-Finishes docs zero [] sudoc waits emitted bound h t =
        (_, refl, record { tracked = t; none_pending = refl })
    wait_for_remaining-Finishes docs zero (d ∷ ds) sudoc waits emitted bound h t =
        absurd (omega arith)
    wait_for_remaining-Finishes docs (suc fuel) [] sudoc waits emitted bound h t =
        (_, refl, record { tracked = t; none_pending = refl })
    wait_for_remaining-Finishes docs (suc fuel) (d ∷ ds) sudoc waits emitted bound h t =
        let split = schedule.first_completed waits (d ∷ ds) in
        let (emissions, returned, r) =
          report_round-AreReported answer split.0
            (record {
              pending_queries = split.1;
              num_sudoc_waiting_queries = sudoc;
              waits = suc waits;
              emitted = emitted;
            })
            (All-append_left _ split.0 split.1
              (All-Permᴰ _ (s.divided waits (d ∷ ds)) (pending-AreSettled answer docs _ h t))) in
        let (f', later, end) =
          wait_for_remaining-Finishes docs fuel split.1 sudoc (suc waits) (emitted ++ emissions)
            (omega (arith, s.progress waits d ds)) h
            (Tracks-report answer docs split.0 split.1 emissions _ sudoc (suc waits)
              (s.divided waits (d ∷ ds)) r t) in
        (
          f',
          bind_of_ok (report_round answer none split.0)
                (λ _. wait_for_remaining answer schedule fuel) returned
              ∙ later,
          end,
        )

    pub process_remaining-Finishes :
        (docs : List Doc) (f : Fetching)
        → AreSettled answer docs
        → Tracks answer docs f
        → Finishes (process_remaining answer schedule) docs f
    unfolding process_remaining
    process_remaining-Finishes docs f h t =
        wait_for_remaining-Finishes docs (length f.pending_queries) f.pending_queries
          f.num_sudoc_waiting_queries f.waits f.emitted (omega arith) h t
