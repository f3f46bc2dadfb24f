-- ===== src/Sources/Idref.antt =====
-- `fetch_results` of app/harvesters/idref/idref_harvester.py: the documents that the SPARQL endpoint
-- lists are looked up by tasks that run at the same time. What a task answers is a parameter, and so
-- are the order of a set of tasks and the tasks that `asyncio.wait` finds completed.
pub mod Tracking
pub mod Waiting
pub mod Completion
pub mod Reports
pub mod Rounds
pub mod Parallelism
mod Tests
use Prim.Native.Nat.{compare, Ordering}
use svp_harvester.Prelude.{
  ℕ, suc, zero, String, Bool, true, false, cond, not, ◌||◌, Option, none, some, List, [], ◌∷◌, ◌++◌,
  length, contains, ◌==◌, string_eq, if◌then◌else◌,
}
use svp_harvester.Prelude.Action.{Outcome, ok, raised, Action, pure, raise, modify, ◌>>=◌, ◌>>◌}
use svp_harvester.Harvesting.Model.{
  Kind, Exception, external_endpoint_failure, unexpected_format, connection_error,
  postgres_connection_error, sql_timeout, other,
}

-- A line of the answer of the SPARQL endpoint.
pub record Doc : Type 0 where
  pub secondary_source : String
  pub uri : Option String
  pub doi : Option String

pub record RawResult : Type 0 where
  pub source_identifier : String
  pub formatter_name : String

-- What the generator does: it yields a result, or calls `handle_error`.
pub data Emission : Type 0 where
  yielded : RawResult → Emission
  handled : Exception → Emission

-- The exceptions of a query that are recorded and do not end the harvesting.
abbrev pub is_reported : Kind → Bool
is_reported external_endpoint_failure = true
is_reported unexpected_format = true
is_reported connection_error = false
is_reported postgres_connection_error = false
is_reported sql_timeout = false
is_reported other = false

abbrev pub secondary_sources : List String
secondary_sources = "IDREF" ∷ "SUDOC" ∷ "HAL" ∷ "SCIENCE_PLUS" ∷ "OPEN_EDITION" ∷ "PERSEE" ∷ []

abbrev pub is_sudoc : Doc → Bool
is_sudoc doc = doc.secondary_source == "SUDOC"

abbrev pub max_sudoc_parallelism : ℕ
max_sudoc_parallelism = 3

-- `num_sudoc_waiting_queries >= self.MAX_SUDOC_PARALLELISM`
abbrev pub is_full : ℕ → Bool
is_full number = elim (compare number max_sudoc_parallelism) [ Ordering.lt ↦ false | _ ↦ true ]

-- The local variables of `fetch_results`, with the number of calls of `asyncio.wait` so far.
pub record Fetching : Type 0 where
  pub pending_queries : List Doc
  pub num_sudoc_waiting_queries : ℕ
  pub waits : ℕ
  pub emitted : List Emission

-- In which order the completed tasks of a call of `asyncio.wait` come, and which of the pending tasks
-- are completed when it returns on the first completion.
pub record Schedule : Type 0 where
  pub all_completed : ℕ → List Doc → List Doc
  pub first_completed : ℕ → List Doc → List Doc × List Doc

abbrev pub Fetch : Type 0 → Type 0
Fetch A = Action Fetching Exception A

unfoldable pub emit : Emission → Fetch (Unit {0})
emit emission = modify (λ f. record f { emitted = f.emitted ++ emission ∷ [] })

-- `if pub: yield pub`
abbrev pub yield_if : Option RawResult → Fetch (Unit {0})
yield_if none = pure tt
yield_if (some result) = emit (yielded result)

-- `asyncio.create_task(coro)` fails on None, which an unknown source leads to.
unfoldable pub create_task : Doc → Fetch (Unit {0})
create_task doc =
    if contains secondary_sources doc.secondary_source
    then modify (λ f. record f { pending_queries = f.pending_queries ++ doc ∷ [] })
    else raise (record { kind = other; message = "a coroutine was expected, got None" })

unfoldable pub count_sudoc : Doc → Fetch (Unit {0})
count_sudoc doc = modify (λ f. record f {
  num_sudoc_waiting_queries =
      cond (is_sudoc doc) (suc f.num_sudoc_waiting_queries) f.num_sudoc_waiting_queries;
})

-- A completed query, with the value that `pub` has before; the value that it has afterwards.
unfoldable pub report :
    Outcome Exception (Option RawResult) → Option RawResult → Fetch (Option RawResult)
unfolding emit
report (ok result) found = do yield_if result; pure result
report (raised e) found =
    if is_reported e.kind then (do emit (handled e); yield_if found; pure found) else raise e

-- What a task answered: a result, nothing, or an exception.
module _ (answer : Doc → Outcome Exception (Option RawResult)) where
  -- `pub` is reset for each query.
  unfoldable pub report_each : List Doc → Fetch (Unit {0})
  unfolding report
  report_each [] = pure tt
  report_each (doc ∷ docs) = do report (answer doc) none; report_each docs

  -- `pub` is reset for each call of `asyncio.wait`.
  unfoldable pub report_round : Option RawResult → List Doc → Fetch (Unit {0})
  unfolding report
  report_round found [] = pure tt
  report_round found (doc ∷ docs) = do found' ← report (answer doc) found; report_round found' docs

  module _ (schedule : Schedule) where
    -- `while pending_queries: …` with `ALL_COMPLETED`, which leaves no query pending.
    unfoldable pub drain : Fetch (Unit {0})
    unfolding report_each
    drain f = elim f.pending_queries [
      | [] ↦ (ok tt, f)
      | doc ∷ docs ↦
          report_each (schedule.all_completed f.waits f.pending_queries)
            (record f { pending_queries = []; waits = suc f.waits })
    ]

    unfoldable pub drain_when : Bool → Fetch (Unit {0})
    unfolding drain
    drain_when true f = drain (record f { num_sudoc_waiting_queries = 0 })
    drain_when false f = (ok tt, f)

    unfoldable pub drain_if_full : Fetch (Unit {0})
    unfolding drain_when
    drain_if_full f = drain_when (is_full f.num_sudoc_waiting_queries) f

    unfoldable pub read_doc : Doc → Fetch (Unit {0})
    unfolding create_task count_sudoc drain_if_full
    read_doc doc = do create_task doc; count_sudoc doc; drain_if_full

    unfoldable pub read_docs : List Doc → Fetch (Unit {0})
    unfolding read_doc
    read_docs [] = pure tt
    read_docs (doc ∷ docs) = do read_doc doc; read_docs docs

    -- `while pending_queries: …` with `FIRST_COMPLETED`. The fuel is the number of pending queries.
    unfoldable pub wait_for_remaining : ℕ → Fetch (Unit {0})
    unfolding report_round
    wait_for_remaining zero f = (ok tt, f)
    wait_for_remaining (suc fuel) f = elim f.pending_queries [
      | [] ↦ (ok tt, f)
      | doc ∷ docs ↦
          let (done, pending) = schedule.first_completed f.waits f.pending_queries in
          (report_round none done >> wait_for_remaining fuel)
            (record f { pending_queries = pending; waits = suc f.waits })
    ]

    unfoldable pub process_remaining : Fetch (Unit {0})
    unfolding wait_for_remaining
    process_remaining f = wait_for_remaining (length f.pending_queries) f

    -- The branch with SUDOC enabled.
    unfoldable pub fetch_with_sudoc : List Doc → Fetch (Unit {0})
    unfolding read_docs process_remaining
    fetch_with_sudoc docs = do read_docs docs; process_remaining

    -- The branch without: the queries for SUDOC are left out, and each other query is waited for.
    unfoldable pub fetch_without_sudoc : List Doc → Fetch (Unit {0})
    unfolding create_task process_remaining
    fetch_without_sudoc [] = pure tt
    fetch_without_sudoc (doc ∷ docs) =
        let rest = fetch_without_sudoc docs in
        cond (is_sudoc doc) rest (create_task doc >> process_remaining >> rest)

    unfoldable pub fetch_results : Bool → List Doc → Fetch (Unit {0})
    unfolding fetch_with_sudoc fetch_without_sudoc
    fetch_results sudoc_enabled docs =
        cond sudoc_enabled (fetch_with_sudoc docs) (fetch_without_sudoc docs)

abbrev pub nothing_fetched : Fetching
nothing_fetched = record {
  pending_queries = [];
  num_sudoc_waiting_queries = 0;
  waits = 0;
  emitted = [];
}
