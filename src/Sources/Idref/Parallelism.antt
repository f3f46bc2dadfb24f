-- ===== src/Sources/Idref/Parallelism.antt =====
-- How many queries for SUDOC run at the same time in `fetch_results` of
-- app/harvesters/idref/idref_harvester.py.
use svp_harvester.Sources.Idref.{
  Doc, RawResult, Fetching, Schedule, secondary_sources, is_sudoc, is_full, max_sudoc_parallelism,
  create_task, count_sudoc, drain, drain_when, drain_if_full, read_doc, read_docs, nothing_fetched,
  emit, yield_if, report, report_each, yielded, handled, is_reported, Emission,
}
use svp_harvester.Prelude.{
  ℕ, suc, ◌+◌, ◌<◌, ◌≤◌, Bool, true, false, cond, Option, none, some, List, [], ◌∷◌, ◌++◌, ◌≡◌,
  refl, arith, contains, length, filter, string_eq, inl, inr, Bool-cases,
}
use svp_harvester.Prelude.Action.{
  Outcome, ok, raised, ◌>>=◌, pure, raise, modify, Preserves, Preserves-bind,
}
use svp_harvester.Harvesting.Model.{Exception}

abbrev pub pending_sudoc : Fetching → ℕ
pending_sudoc f = length (filter is_sudoc f.pending_queries)

-- The pending queries for SUDOC are counted, and fewer than the limit.
record IsBounded (f : Fetching) : Type 0 where
  counted : pending_sudoc f ≤ f.num_sudoc_waiting_queries
  below : f.num_sudoc_waiting_queries < max_sudoc_parallelism

emit-IsBounded : (e : Emission) → Preserves IsBounded (emit e)
unfolding emit modify
emit-IsBounded e f b = record { counted = b.counted; below = b.below }

yield_if-IsBounded : (found : Option RawResult) → Preserves IsBounded (yield_if found)
unfolding pure
yield_if-IsBounded none f b = b
yield_if-IsBounded (some r) f b = emit-IsBounded (yielded r) f b

pure-IsBounded : {A : Type 0} (a : A) → Preserves IsBounded (pure {S = Fetching} {E = Exception} a)
unfolding pure
pure-IsBounded a f b = b

report-IsBounded :
    (o : Outcome Exception (Option RawResult)) (found : Option RawResult)
    → Preserves IsBounded (report o found)
unfolding report raise
report-IsBounded (ok r) found =
    Preserves-bind (yield_if r) (λ _. pure r) (yield_if-IsBounded r) (λ _. pure-IsBounded r)
report-IsBounded (raised e) found = elim (Bool-cases (is_reported e.kind)) [
  | inl yes_ ↦ rw yes_ (
      Preserves-bind (emit (handled e)) _ (emit-IsBounded (handled e)) (λ _.
        Preserves-bind (yield_if found) (λ _. pure found) (yield_if-IsBounded found)
          (λ _. pure-IsBounded found)))
  | inr no_ ↦ rw no_ (λ f b. b)
]

filter-append :
    (xs : List Doc) (doc : Doc)
    → length (filter is_sudoc (xs ++ doc ∷ []))
      ≡ length (filter is_sudoc xs) + cond (is_sudoc doc) 1 0
filter-append [] doc = ground arith
filter-append (x ∷ xs) doc = ground (arith, filter-append xs doc)

create_task-pending :
    (doc : Doc) (f : Fetching)
    → pending_sudoc f < max_sudoc_parallelism
    → pending_sudoc (create_task doc f).1 ≤ max_sudoc_parallelism
unfolding create_task modify raise
create_task-pending doc f h = ground (arith, filter-append f.pending_queries doc)

module _ (answer : Doc → Outcome Exception (Option RawResult)) (schedule : Schedule) where
  report_each-IsBounded : (docs : List Doc) → Preserves IsBounded (report_each answer docs)
  unfolding report_each
  report_each-IsBounded [] = pure-IsBounded tt
  report_each-IsBounded (d ∷ ds) =
      Preserves-bind (report (answer d) none) (λ _. report_each answer ds)
        (report-IsBounded (answer d) none) (λ _. report_each-IsBounded ds)

  -- Whatever is pending, nothing is afterwards.
  drain_when-IsBounded :
      (full : Bool) (pending : List Doc) (sudoc waits : ℕ) (emitted : List Emission)
      → let f : Fetching = record {
        pending_queries = pending;
        num_sudoc_waiting_queries = sudoc;
        waits = waits;
        emitted = emitted;
      } in
        pending_sudoc f ≤ sudoc
        → is_full sudoc ≡ full
        → IsBounded (drain_when answer schedule full f).1
  unfolding drain_when drain
  drain_when-IsBounded false pending sudoc waits emitted h e = record {
    counted = h;
    below = ground arith;
  }
  drain_when-IsBounded true [] sudoc waits emitted h e = record {
    counted = omega arith;
    below = omega arith;
  }
  drain_when-IsBounded true (d ∷ ds) sudoc waits emitted h e =
      report_each-IsBounded (schedule.all_completed waits (d ∷ ds)) _
        (record { counted = omega arith; below = omega arith })

  read_doc-IsBounded : (doc : Doc) → Preserves IsBounded (read_doc answer schedule doc)
  unfolding read_doc create_task count_sudoc drain_if_full modify ◌>>=◌ raise
  read_doc-IsBounded doc f b = elim (Bool-cases (contains secondary_sources doc.secondary_source)) [
    | inl known ↦ rw known (
        drain_when-IsBounded _ (f.pending_queries ++ doc ∷ [])
          (cond (is_sudoc doc) (suc f.num_sudoc_waiting_queries) f.num_sudoc_waiting_queries)
          f.waits f.emitted (ground (arith, filter-append f.pending_queries doc, b.counted)) refl)
    | inr unknown ↦ rw unknown b
  ]

  read_docs-IsBounded : (docs : List Doc) → Preserves IsBounded (read_docs answer schedule docs)
  unfolding read_docs
  read_docs-IsBounded [] = pure-IsBounded tt
  read_docs-IsBounded (d ∷ ds) =
      Preserves-bind (read_doc answer schedule d) (λ _. read_docs answer schedule ds)
        (read_doc-IsBounded d) (λ _. read_docs-IsBounded ds)

  -- Whatever the queries answer and in whatever order: at no document of the list do more than three
  -- queries for SUDOC run at the same time, the query for that document included.
  pub read_docs-bounded :
      (docs : List Doc) (doc : Doc)
      → pending_sudoc (create_task doc (read_docs answer schedule docs nothing_fetched).1).1
        ≤ max_sudoc_parallelism
  read_docs-bounded docs doc =
      let b =
        read_docs-IsBounded docs nothing_fetched
          (record { counted = omega arith; below = omega arith }) in
      create_task-pending doc _ (omega (arith, b.counted, b.below))
