-- ===== src/Sources/Idref/Reports.antt =====
-- What the loops of `fetch_results` (app/harvesters/idref/idref_harvester.py) emit for the documents
-- whose tasks are completed.
use svp_harvester.Sources.Idref.{Doc, RawResult, Emission, yielded, handled, is_reported}
use mathlib.Core.List.{Permᴰ, map-append}
use mathlib.Core.List.Permᴰ
use svp_harvester.Prelude.Permutations.{
  All-Permᴰ, All-append_left, All-append_right, append-Permᴰ, exchange, concat_map,
  concat_map-append, concat_map-Permᴰ,
}
use svp_harvester.Prelude.{
  Bool, true, false, Option, none, some, List, [], ◌∷◌, ◌++◌, map, All, ◌≡◌, refl, subst, ◌⊎◌, inl,
  inr, All-append, All-map,
}
use svp_harvester.Prelude.Action.{Outcome, ok, raised}
use svp_harvester.Harvesting.Model.{Exception}

-- A query that answers, or fails in a way that is recorded.
abbrev pub is_settled : Outcome Exception (Option RawResult) → Bool
is_settled (ok result) = true
is_settled (raised e) = is_reported e.kind

abbrev pub succeeds : Outcome Exception (Option RawResult) → Bool
succeeds (ok result) = true
succeeds (raised e) = false

abbrev pub yields : Option RawResult → List Emission
yields none = []
yields (some result) = yielded result ∷ []

-- What is to be emitted for an answer.
abbrev pub due : Outcome Exception (Option RawResult) → List Emission
due (ok result) = yields result
due (raised e) = handled e ∷ []

module _ (answer : Doc → Outcome Exception (Option RawResult)) where
  abbrev pub AreSettled : List Doc → Type 0
  AreSettled docs = All (λ doc. is_settled (answer doc) ≡ true) docs

  abbrev pub reports : List Doc → List Emission
  reports = concat_map (λ doc. due (answer doc))

  -- The result is that of one of the documents.
  abbrev pub IsPublished : List Doc → RawResult → Type 0
  IsPublished [] result = ⊥
  IsPublished (doc ∷ docs) result = (answer doc ≡ ok (some result)) ⊎ IsPublished docs result

  -- The emissions are what is due for the documents, in some order, and nothing else but results that
  -- are yielded again, of which there is none if every query succeeds.
  pub record AreReported (emitted : List Emission) (docs : List Doc) : Type 0 where
    pub again : List RawResult
    pub rearranged : Permᴰ emitted (reports docs ++ map yielded again)
    pub origin : All (IsPublished docs) again
    pub only_after_errors : All (λ doc. succeeds (answer doc) ≡ true) docs → again ≡ []

  IsPublished-left :
      (ds es : List Doc) (r : RawResult) → IsPublished ds r → IsPublished (ds ++ es) r
  IsPublished-left [] es r h = elim h [ ]
  IsPublished-left (d ∷ ds) es r (inl h) = inl h
  IsPublished-left (d ∷ ds) es r (inr h) = inr (IsPublished-left ds es r h)

  IsPublished-right :
      (ds es : List Doc) (r : RawResult) → IsPublished es r → IsPublished (ds ++ es) r
  IsPublished-right [] es r h = h
  IsPublished-right (d ∷ ds) es r h = inr (IsPublished-right ds es r h)

  IsPublished-Permᴰ :
      {ds es : List Doc} → Permᴰ ds es → (r : RawResult) → IsPublished ds r → IsPublished es r
  IsPublished-Permᴰ Permᴰ.nil r h = elim h [ ]
  IsPublished-Permᴰ (Permᴰ.cons e p) r (inl h) = inl (subst (λ d. answer d ≡ ok (some r)) e h)
  IsPublished-Permᴰ (Permᴰ.cons e p) r (inr h) = inr (IsPublished-Permᴰ p r h)
  IsPublished-Permᴰ (Permᴰ.swap e f) r (inl h) = inr (inl (subst (λ d. answer d ≡ ok (some r)) e h))
  IsPublished-Permᴰ (Permᴰ.swap e f) r (inr (inl h)) = inl (subst (λ d. answer d ≡ ok (some r)) f h)
  IsPublished-Permᴰ (Permᴰ.swap e f) r (inr (inr h)) = inr (inr h)
  IsPublished-Permᴰ (Permᴰ.trans p q) r h = IsPublished-Permᴰ q r (IsPublished-Permᴰ p r h)

  pub AreReported-nil : AreReported [] []
  AreReported-nil = record {
    again = [];
    rearranged = Permᴰ.nil;
    origin = tt;
    only_after_errors = λ h. refl;
  }

  pub AreReported-Permᴰ :
      (emitted : List Emission) (ds es : List Doc)
      → Permᴰ ds es
      → AreReported emitted ds
      → AreReported emitted es
  AreReported-Permᴰ emitted ds es p r = record {
    again = r.again;
    rearranged =
        Permᴰ.trans r.rearranged
          (Permᴰ.append_right (map yielded r.again) (concat_map-Permᴰ (λ doc. due (answer doc)) p));
    origin = All-map (IsPublished ds) (IsPublished es) (IsPublished-Permᴰ p) r.again r.origin;
    only_after_errors = λ h. r.only_after_errors (All-Permᴰ _ (Permᴰ.symm p) h);
  }

  pub AreReported-append :
      (a b : List Emission) (ds es : List Doc)
      → AreReported a ds
      → AreReported b es
      → AreReported (a ++ b) (ds ++ es)
  AreReported-append a b ds es r s = record {
    again = r.again ++ s.again;
    rearranged =
        rw (concat_map-append (λ doc. due (answer doc)) ds es, map-append yielded r.again s.again)
          (Permᴰ.trans (append-Permᴰ r.rearranged s.rearranged)
            (exchange (reports ds) (map yielded r.again) (reports es) (map yielded s.again)));
    origin =
        All-append (IsPublished (ds ++ es)) r.again s.again
          (All-map (IsPublished ds) (IsPublished (ds ++ es)) (IsPublished-left ds es) r.again
            r.origin)
          (All-map (IsPublished es) (IsPublished (ds ++ es)) (IsPublished-right ds es) s.again
            s.origin);
    only_after_errors = λ h.
        rw (r.only_after_errors (All-append_left _ ds es h))
          (s.only_after_errors (All-append_right _ ds es h));
  }
