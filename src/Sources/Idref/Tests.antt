-- ===== src/Sources/Idref/Tests.antt =====
-- Sample harvestings of app/harvesters/idref/idref_harvester.py.
use svp_harvester.Sources.Idref.{
  Doc, RawResult, yielded, handled, Fetching, Schedule, fetch_results, nothing_fetched, create_task,
  read_docs, report_round, max_sudoc_parallelism,
}
use svp_harvester.Sources.Idref.Completion.{fetch_results-AreReported, looked_up}
use svp_harvester.Sources.Idref.Waiting.{IsSchedule}
use svp_harvester.Sources.Idref.Reports.{AreReported}
use svp_harvester.Sources.Idref.Rounds.{report_round_repeats, emitting}
use svp_harvester.Sources.Idref.Parallelism.{read_docs-bounded, pending_sudoc}
use svp_harvester.Prelude.{
  String, true, Option, none, some, [], ◌∷◌, ◌≡◌, refl, ◌≤◌, string_eq, ◌==◌, if◌then◌else◌, arith,
}
use svp_harvester.Prelude.Action.{◌>>=◌, Outcome, ok, raised}
use svp_harvester.Harvesting.Model.{Exception, external_endpoint_failure}
use mathlib.Core.List.Permᴰ

abbrev doc : String → Doc
doc source = record { secondary_source = source; uri = none; doi = none }

abbrev result : RawResult
result = record { source_identifier = "uri"; formatter_name = "IDREF_SPARQL" }

abbrev failure : Exception
failure = record { kind = external_endpoint_failure; message = "timeout" }

-- The queries for SUDOC fail, the others have a result.
abbrev answer : Doc → Outcome Exception (Option RawResult)
answer d = if d.secondary_source == "SUDOC" then raised failure else ok (some result)

-- Tasks are completed in the order in which they were made, all at once.
abbrev at_once : Schedule
at_once = record { all_completed = λ n docs. docs; first_completed = λ n docs. (docs, []) }

at_once-IsSchedule : IsSchedule at_once
at_once-IsSchedule = record {
  ordered = λ n docs. Permᴰ.refl docs;
  divided = λ n docs. Permᴰ.symm (Permᴰ.append-nil docs);
  progress = λ n d docs. omega arith;
}

-- The result of the first query is yielded twice.
repeated :
    (fetch_results answer at_once true (doc "IDREF" ∷ doc "SUDOC" ∷ []) nothing_fetched).1.emitted
    ≡ yielded result ∷ handled failure ∷ yielded result ∷ []
unfolding fetch_results string_eq ◌>>=◌
repeated = refl

-- In the batches of the reading loop it is not.
not_repeated :
    (fetch_results answer at_once true
      (doc "SUDOC" ∷ doc "SUDOC" ∷ doc "IDREF" ∷ doc "SUDOC" ∷ [])
      nothing_fetched).1.emitted
    ≡ handled failure ∷ handled failure ∷ yielded result ∷ handled failure ∷ []
unfolding fetch_results string_eq ◌>>=◌
not_repeated = refl

fetch_results-AreReported_example :
    (f : Fetching) × (fetch_results answer at_once true
        (doc "IDREF" ∷ doc "SUDOC" ∷ [])
        nothing_fetched
      ≡ (ok tt, f))
    × (f.pending_queries ≡ [])
    × AreReported answer f.emitted (looked_up true (doc "IDREF" ∷ doc "SUDOC" ∷ []))
unfolding string_eq
fetch_results-AreReported_example =
    fetch_results-AreReported answer at_once at_once-IsSchedule true
      (doc "IDREF" ∷ doc "SUDOC" ∷ []) (refl, (refl, tt)) (refl, (refl, tt))

read_docs-bounded_example :
    pending_sudoc
      (create_task
        (doc "SUDOC")
        (read_docs answer at_once (doc "SUDOC" ∷ doc "SUDOC" ∷ []) nothing_fetched).1).1
    ≤ max_sudoc_parallelism
read_docs-bounded_example =
    read_docs-bounded answer at_once (doc "SUDOC" ∷ doc "SUDOC" ∷ []) (doc "SUDOC")

report_round_repeats_example :
    report_round answer none (doc "IDREF" ∷ doc "SUDOC" ∷ []) nothing_fetched
    ≡ report_round answer
        (some result)
        []
        (emitting (yielded result ∷ handled failure ∷ yielded result ∷ []) nothing_fetched)
unfolding string_eq
report_round_repeats_example =
    report_round_repeats answer none (doc "IDREF") (doc "SUDOC") [] result failure nothing_fetched
      refl refl refl
