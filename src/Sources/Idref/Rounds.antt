-- ===== src/Sources/Idref/Rounds.antt =====
-- The two loops over the tasks that a call of `asyncio.wait` found completed, in `fetch_results` of
-- app/harvesters/idref/idref_harvester.py.
use mathlib.Core.List.{Permᴰ, map-append}
use svp_harvester.Sources.Idref.{
  Doc, RawResult, Emission, yielded, handled, Fetching, report, emit, report_each, report_round,
  is_reported,
}
use svp_harvester.Sources.Idref.Reports.{
  is_settled, due, IsPublished, AreReported, AreSettled, reports, succeeds, yields,
}
use mathlib.Core.List.Permᴰ
use svp_harvester.Prelude.Permutations.{exchange}
use svp_harvester.Prelude.Action.{pure, Outcome, ok, raised, ◌>>=◌, bind_of_ok}
use mathlib.Core.Option.{none-ne-some}
use svp_harvester.Prelude.{
  append_assoc, map, true, Option, none, some, List, [], ◌∷◌, ◌++◌, map, ◌≡◌, refl, append_assoc,
  append-nil, All, inl, ◌∙◌, false≢true, ap, inr,
}
use svp_harvester.Harvesting.Model.{Exception}

abbrev found_after : Outcome Exception (Option RawResult) → Option RawResult → Option RawResult
found_after (ok result) found = result
found_after (raised e) found = found

-- The result that an earlier query left in `pub`.
abbrev again_after : Outcome Exception (Option RawResult) → Option RawResult → List RawResult
again_after (ok result) found = []
again_after (raised e) none = []
again_after (raised e) (some result) = result ∷ []

abbrev pub emitting : List Emission → Fetching → Fetching
emitting emissions f = record f { emitted = f.emitted ++ emissions }

report-due :
    (o : Outcome Exception (Option RawResult)) (found : Option RawResult) (f : Fetching)
    → is_settled o ≡ true
    → report o found f
      ≡ (ok (found_after o found), emitting (due o ++ map yielded (again_after o found)) f)
unfolding report emit ◌>>=◌
report-due (ok none) found f h = rw (append-nil f.emitted) refl
report-due (ok (some result)) found f h = refl
report-due (raised e) none f h = rw h refl
report-due (raised e) (some result) f h =
    rw (h, append_assoc f.emitted (handled e ∷ []) (yielded result ∷ [])) refl

only_due :
    (o : Outcome Exception (Option RawResult)) → due o ++ map yielded (again_after o none) ≡ due o
only_due (ok result) = append-nil (yields result)
only_due (raised e) = refl

module _ (answer : Doc → Outcome Exception (Option RawResult)) where
  round_trace : Option RawResult → List Doc → List Emission
  round_trace found [] = []
  round_trace found (doc ∷ docs) =
      (due (answer doc) ++ map yielded (again_after (answer doc) found))
      ++ round_trace (found_after (answer doc) found) docs

  again_in : Option RawResult → List Doc → List RawResult
  again_in found [] = []
  again_in found (doc ∷ docs) =
      again_after (answer doc) found ++ again_in (found_after (answer doc) found) docs

  pub report_each-reports :
      (docs : List Doc) (f : Fetching)
      → AreSettled answer docs
      → report_each answer docs f ≡ (ok tt, emitting (reports answer docs) f)
  unfolding report_each pure
  report_each-reports [] f h = rw (append-nil f.emitted) refl
  report_each-reports (doc ∷ docs) f h =
      bind_of_ok (report (answer doc) none) (λ _. report_each answer docs)
        (report-due (answer doc) none f h.0
          ∙ ap (λ l. (ok (found_after (answer doc) none), emitting l f)) (only_due (answer doc)))
      ∙ report_each-reports docs (emitting (due (answer doc)) f) h.1
      ∙ ap (λ l. (ok tt, record f { emitted = l }))
          (append_assoc f.emitted (due (answer doc)) (reports answer docs))

  report_round-trace :
      (found : Option RawResult) (docs : List Doc) (f : Fetching)
      → AreSettled answer docs
      → report_round answer found docs f ≡ (ok tt, emitting (round_trace found docs) f)
  unfolding report_round round_trace pure
  report_round-trace found [] f h = rw (append-nil f.emitted) refl
  report_round-trace found (doc ∷ docs) f h =
      bind_of_ok (report (answer doc) found) (λ found'. report_round answer found' docs)
        (report-due (answer doc) found f h.0)
      ∙ report_round-trace (found_after (answer doc) found) docs
          (emitting (due (answer doc) ++ map yielded (again_after (answer doc) found)) f) h.1
      ∙ ap (λ l. (ok tt, record f { emitted = l }))
          (append_assoc f.emitted (due (answer doc) ++ map yielded (again_after (answer doc) found))
            (round_trace (found_after (answer doc) found) docs))

  round_trace-Permᴰ :
      (found : Option RawResult) (docs : List Doc)
      → Permᴰ (round_trace found docs) (reports answer docs ++ map yielded (again_in found docs))
  unfolding round_trace again_in
  round_trace-Permᴰ found [] = Permᴰ.nil
  round_trace-Permᴰ found (doc ∷ docs) =
      let later = found_after (answer doc) found in
      let now = again_after (answer doc) found in
      rw (map-append yielded now (again_in later docs)) (
        Permᴰ.trans
          (Permᴰ.append_left (due (answer doc) ++ map yielded now) (round_trace-Permᴰ later docs))
          (exchange (due (answer doc)) (map yielded now) (reports answer docs)
            (map yielded (again_in later docs))))

  again_in-origin :
      (P : RawResult → Type 0) (found : Option RawResult) (docs : List Doc)
      → ((r : RawResult) → found ≡ some r → P r)
      → ((r : RawResult) → IsPublished answer docs r → P r)
      → All P (again_in found docs)
  unfolding again_in
  again_in-origin P found [] h k = tt
  again_in-origin P found (doc ∷ docs) h k =
      go (answer doc) refl found h (λ later p. again_in-origin P later docs p (λ r q. k r (inr q)))
    where
      go :
          (o : Outcome Exception (Option RawResult))
          → answer doc ≡ o
          → (found : Option RawResult) → ((r : RawResult) → found ≡ some r → P r)
          → ((later : Option RawResult)
              → ((r : RawResult) → later ≡ some r → P r)
              → All P (again_in later docs))
          → All P (again_after o found ++ again_in (found_after o found) docs)
      go (ok result) e found h rest = rest result (λ r q. k r (inl (e ∙ ap ok q)))
      go (raised x) e none h rest = rest none h
      go (raised x) e (some result) h rest = (h result refl, rest (some result) h)

  again_in-nil :
      (found : Option RawResult) (docs : List Doc)
      → All (λ doc. succeeds (answer doc) ≡ true) docs
      → again_in found docs ≡ []
  unfolding again_in
  again_in-nil found [] h = refl
  again_in-nil found (doc ∷ docs) h =
      rw (again_in-nil (found_after (answer doc) found) docs h.1) (go (answer doc) found h.0)
    where
      go :
          (o : Outcome Exception (Option RawResult)) (found : Option RawResult)
          → succeeds o ≡ true
          → again_after o found ++ [] ≡ []
      go (ok result) found h = refl
      go (raised e) found h = absurd (false≢true h)

  pub reports-AreReported : (docs : List Doc) → AreReported answer (reports answer docs) docs
  reports-AreReported docs = record {
    again = [];
    rearranged = rw (append-nil (reports answer docs)) (Permᴰ.refl (reports answer docs));
    origin = tt;
    only_after_errors = λ h. refl;
  }

  pub report_round-AreReported :
      (docs : List Doc) (f : Fetching)
      → AreSettled answer docs
      → (emissions : List Emission) × (report_round answer none docs f
          ≡ (ok tt, emitting emissions f))
        × AreReported answer emissions docs
  report_round-AreReported docs f h = (
    round_trace none docs,
    report_round-trace none docs f h,
    record {
      again = again_in none docs;
      rearranged = round_trace-Permᴰ none docs;
      origin =
          again_in-origin (IsPublished answer docs) none docs (λ r e. absurd (none-ne-some r e))
            (λ r q. q);
      only_after_errors = again_in-nil none docs;
    },
  )

  -- If a query of a round succeeds with a result and the next one fails in a way that is recorded, then
  -- the result is yielded, the failure recorded and the same result yielded again, and the round goes
  -- on with the result as the one that is found.
  pub report_round_repeats :
      (found : Option RawResult) (first second : Doc) (docs : List Doc) (result : RawResult)
      (failure : Exception) (f : Fetching)
      → answer first ≡ ok (some result)
      → answer second ≡ raised failure
      → is_reported failure.kind ≡ true
      → report_round answer found (first ∷ second ∷ docs) f
        ≡ report_round answer
            (some result)
            docs
            (emitting (yielded result ∷ handled failure ∷ yielded result ∷ []) f)
  unfolding report_round
  report_round_repeats found first second docs result failure f h k reported =
      bind_of_ok (report (answer first) found)
        (λ found'. report_round answer found' (second ∷ docs))
        (ap (λ o. report o found f) h ∙ report-due (ok (some result)) found f refl)
      ∙ bind_of_ok (report (answer second) (some result))
          (λ found'. report_round answer found' docs)
          (ap (λ o. report o (some result) (emitting (yielded result ∷ []) f)) k
            ∙ report-due (raised failure) (some result) (emitting (yielded result ∷ []) f) reported)
      ∙ ap (λ l. report_round answer (some result) docs (record f { emitted = l }))
          (append_assoc f.emitted (yielded result ∷ []) (handled failure ∷ yielded result ∷ []))
