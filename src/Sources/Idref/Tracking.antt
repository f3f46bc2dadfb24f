-- ===== src/Sources/Idref/Tracking.antt =====
-- The documents of a harvesting (app/harvesters/idref/idref_harvester.py) that are reported and those
-- whose queries are pending.
use svp_harvester.Sources.Idref.{Doc, RawResult, Emission, Fetching}
use svp_harvester.Sources.Idref.Reports.{AreSettled, AreReported, AreReported-append}
use mathlib.Core.List.{Permᴰ}
use mathlib.Core.List.Permᴰ
use svp_harvester.Prelude.Permutations.{All-Permᴰ, All-append_right}
use svp_harvester.Prelude.Action.{Outcome}
use svp_harvester.Prelude.{ℕ, Option, List, [], ◌∷◌, ◌++◌, ◌≡◌, subst, append_assoc, string_eq}
use svp_harvester.Harvesting.Model.{Exception}

module _ (answer : Doc → Outcome Exception (Option RawResult)) where
  -- Of the documents some are reported and the others pending.
  pub record Tracks (docs : List Doc) (f : Fetching) : Type 0 where
    pub done : List Doc
    pub reported : AreReported answer f.emitted done
    pub others : Permᴰ docs (done ++ f.pending_queries)

  pub record HasFinished (docs : List Doc) (f : Fetching) : Type 0 where
    pub tracked : Tracks docs f
    pub none_pending : f.pending_queries ≡ []

  pub pending-AreSettled :
      (docs : List Doc) (f : Fetching)
      → AreSettled answer docs
      → Tracks docs f
      → AreSettled answer f.pending_queries
  pending-AreSettled docs f h t =
      All-append_right _ t.done f.pending_queries (All-Permᴰ _ t.others h)

  -- Some pending tasks are completed and reported.
  pub Tracks-report :
      (docs done rest : List Doc) (emissions : List Emission) (f : Fetching) (sudoc waits : ℕ)
      → Permᴰ f.pending_queries (done ++ rest)
      → AreReported answer emissions done
      → Tracks docs f
      → Tracks docs (record {
        pending_queries = rest;
        num_sudoc_waiting_queries = sudoc;
        waits = waits;
        emitted = f.emitted ++ emissions;
      })
  Tracks-report docs done rest emissions f sudoc waits p r t = record {
    done = t.done ++ done;
    reported = AreReported-append answer f.emitted emissions t.done done t.reported r;
    others = rw (append_assoc t.done done rest) (Permᴰ.trans t.others (Permᴰ.append_left t.done p));
  }

  pub create_task-Tracks :
      (docs : List Doc) (doc : Doc) (f : Fetching)
      → Tracks docs f
      → Tracks (docs ++ doc ∷ []) (record f { pending_queries = f.pending_queries ++ doc ∷ [] })
  create_task-Tracks docs doc f t = record {
    done = t.done;
    reported = t.reported;
    others =
        subst (λ l. Permᴰ (docs ++ doc ∷ []) l) (append_assoc t.done f.pending_queries (doc ∷ []))
          (Permᴰ.append_right (doc ∷ []) t.others);
  }
