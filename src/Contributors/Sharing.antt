-- ===== src/Contributors/Sharing.antt =====
-- One reference has one contributor per identifier and per name: the caches of `_contributions` of
-- app/harvesters/abstract_references_converter.py.
use svp_harvester.Prelude.{
  cond, String, Bool, true, false, Option, none, some, List, [], ◌∷◌, ◌==◌, string_eq, ◌≡◌, refl,
  sym, ap, ◌∙◌, arith, path→eq, subst, any,
}
use svp_harvester.Prelude.Action.{Outcome, ok, raised, pure, lift, bind-inversion, pure-inversion}
use svp_harvester.Contributors.{Contributor, Contributors, Exception, other_error}
use svp_harvester.Contributors.Roles.{validate_role, loc_author_roles}
use svp_harvester.Contributors.Contributions.{
  ContributionInformations, Contribution, Caches, Key, by_identifier, by_name, key_of, lookup,
  cached, remember, contributor_for, contribution, contributions_from, contributions, no_caches,
  resolve_contributor, make_contribution, cached_or_resolved,
}

-- The caches only gain entries.
abbrev pub IsKept : Caches → Caches → Type 0
IsKept old new = (key : Key) (c : Contributor) → cached old key ≡ some c → cached new key ≡ some c

-- Each contribution has the role and the rank of its information, and the contributor that the
-- caches hold for its key.
abbrev pub IsShared : Caches → List ContributionInformations → List Contribution → Type 0
IsShared caches [] [] = Unit
IsShared caches [] (c ∷ cs) = ⊥
IsShared caches (info ∷ infos) [] = ⊥
IsShared caches (info ∷ infos) (c ∷ cs) =
    ((key : Key) × (key_of info ≡ ok key) × (cached caches key ≡ some c.contributor))
    × (c.role ≡ info.role)
    × (c.rank ≡ info.rank)
    × IsShared caches infos cs

remember-cached :
    (key : Key) (c : Contributor) (caches : Caches) → cached (remember key c caches) key ≡ some c
unfolding cached remember
remember-cached (by_identifier i) c caches = rw (path→eq i i refl) refl
remember-cached (by_name n) c caches = rw (path→eq n n refl) refl

lookup-cons :
    (k i : String) (c d : Contributor) (entries : List (String × Contributor))
    → lookup i entries ≡ none
    → lookup k entries ≡ some d
    → lookup k ((i, c) ∷ entries) ≡ some d
lookup-cons k i c d entries absent found = ground arith

remember-IsKept :
    (key : Key) (c : Contributor) (caches : Caches)
    → cached caches key ≡ none
    → IsKept caches (remember key c caches)
unfolding cached remember
remember-IsKept (by_identifier i) c caches absent (by_identifier k) d found =
    lookup-cons k i c d caches.identifiers absent found
remember-IsKept (by_identifier i) c caches absent (by_name k) d found = found
remember-IsKept (by_name i) c caches absent (by_identifier k) d found = found
remember-IsKept (by_name i) c caches absent (by_name k) d found =
    lookup-cons k i c d caches.names absent found

abbrev IsResolved : Key → Caches → Contributor × Caches → Type 0
IsResolved key caches r = IsKept caches r.1 × (cached r.1 key ≡ some r.0)

cached_or_resolved-IsResolved :
    (source : String) (info : ContributionInformations) (key : Key) (caches : Caches)
    (s t : Contributors) (r : Contributor × Caches) (found : Option Contributor)
    → cached caches key ≡ found
    → cached_or_resolved source info key caches found s ≡ (ok r, t)
    → IsResolved key caches r
unfolding pure
cached_or_resolved-IsResolved source info key caches s t r (some c) hit h =
    subst (IsResolved key caches) (pure-inversion (c, caches) r s t h) (λ k d found. found, hit)
cached_or_resolved-IsResolved source info key caches s t r none miss h =
    let step =
      bind-inversion (resolve_contributor source info key) (λ c. pure (c, remember key c caches))
        h in
    let e = pure-inversion (step.0, remember key step.0 caches) r step.1 t step.3 in
    subst (IsResolved key caches) e
      (remember-IsKept key step.0 caches miss, remember-cached key step.0 caches)

-- What one resolution leaves in the caches.
contributor_for-IsResolved :
    (source : String) (info : ContributionInformations) (key : Key) (caches : Caches)
    (s t : Contributors) (r : Contributor × Caches)
    → contributor_for source info key caches s ≡ (ok r, t)
    → IsResolved key caches r
unfolding contributor_for
contributor_for-IsResolved source info key caches s t r =
    cached_or_resolved-IsResolved source info key caches s t r (cached caches key) refl

-- A contribution that is made has the contributor, the role and the rank it is made from.
make_contribution_lem :
    (contributor : Contributor) (info : ContributionInformations) (made : Contribution)
    → make_contribution contributor info ≡ ok made
    → (made.contributor ≡ contributor) × (made.role ≡ info.role) × (made.rank ≡ info.rank)
unfolding validate_role
make_contribution_lem contributor info made h =
    go (any (λ role. info.role == role.2) loc_author_roles) h
  where
    go :
        (known : Bool)
        → elim (cond known (ok info.role) (raised (other_error "Unknown role")))
            as (λ _. Outcome Exception Contribution) [
              | raised error ↦ raised error
              | ok role ↦ ok record { contributor = contributor; role = role; rank = info.rank }
            ]
          ≡ ok made
        → (made.contributor ≡ contributor) × (made.role ≡ info.role) × (made.rank ≡ info.rank)
    go true k = ground (arith, k)
    go false k = ground (arith, k)

abbrev IsContribution : ContributionInformations → Caches → Contribution × Caches → Type 0
IsContribution info caches r =
    IsKept caches r.1
    × ((key : Key) × (key_of info ≡ ok key) × (cached r.1 key ≡ some (r.0).contributor))
    × ((r.0).role ≡ info.role)
    × ((r.0).rank ≡ info.rank)

contribution-IsContribution :
    (source : String) (info : ContributionInformations) (caches : Caches) (s t : Contributors)
    (r : Contribution × Caches)
    → contribution source info caches s ≡ (ok r, t)
    → IsContribution info caches r
unfolding contribution pure lift
contribution-IsContribution source info caches s t r h =
    let keyed = bind-inversion (lift (key_of info)) _ h in
    let resolved = bind-inversion (contributor_for source info keyed.0 caches) _ keyed.3 in
    let made = bind-inversion (lift (make_contribution (resolved.0).0 info)) _ resolved.3 in
    let kept =
      contributor_for-IsResolved source info keyed.0 caches keyed.1 resolved.1 resolved.0
        resolved.2 in
    let fields =
      make_contribution_lem (resolved.0).0 info made.0
        (ap (λ (x : Outcome Exception Contribution × Contributors). x.0) made.2) in
    subst (IsContribution info caches) (pure-inversion (made.0, (resolved.0).1) r made.1 t made.3) (
      kept.0,
      (
        keyed.0,
        ap (λ (x : Outcome Exception Key × Contributors). x.0) keyed.2,
        kept.1 ∙ ap some (sym fields.0),
      ),
      fields.1,
      fields.2,
    )

-- What is shared stays shared when the caches gain entries.
IsShared-kept :
    (old new : Caches)
    → IsKept old new
    → (infos : List ContributionInformations) (cs : List Contribution) → IsShared old infos cs
    → IsShared new infos cs
IsShared-kept old new kept [] [] h = tt
IsShared-kept old new kept [] (c ∷ cs) h = h
IsShared-kept old new kept (info ∷ infos) [] h = h
IsShared-kept old new kept (info ∷ infos) (c ∷ cs) h = (
  ((h.0).0, (h.0).1, kept (h.0).0 c.contributor (h.0).2),
  h.1,
  h.2,
  IsShared-kept old new kept infos cs h.3,
)

abbrev IsSharedFrom : Caches → List ContributionInformations → List Contribution × Caches → Type 0
IsSharedFrom caches infos r = IsKept caches r.1 × IsShared r.1 infos r.0

contributions_from-IsShared :
    (source : String) (infos : List ContributionInformations) (caches : Caches) (s t : Contributors)
    (r : List Contribution × Caches)
    → contributions_from source infos caches s ≡ (ok r, t)
    → IsSharedFrom caches infos r
unfolding contributions_from pure
contributions_from-IsShared source [] caches s t r h =
    subst (IsSharedFrom caches []) (pure-inversion ([], caches) r s t h) (λ k d found. found, tt)
contributions_from-IsShared source (info ∷ infos) caches s t r h =
    let made = bind-inversion (contribution source info caches) _ h in
    let rest = bind-inversion (contributions_from source infos (made.0).1) _ made.3 in
    let one = contribution-IsContribution source info caches s made.1 made.0 made.2 in
    let others = contributions_from-IsShared source infos (made.0).1 made.1 rest.1 rest.0 rest.2 in
    subst (IsSharedFrom caches (info ∷ infos))
      (pure-inversion ((made.0).0 ∷ (rest.0).0, (rest.0).1) r rest.1 t rest.3)
      (
        λ k d found. others.0 k d (one.0 k d found),
        (
          ((one.1).0, (one.1).1, others.0 (one.1).0 ((made.0).0).contributor (one.1).2),
          one.2,
          one.3,
          others.1,
        ),
      )

-- If the contributions of a reference are computed, then there is one table of contributors by
-- identifier and by name such that every contribution, in the order of the informations, has the
-- contributor that the table holds for the identifier of its information, or for its name if it
-- has none, and the role and the rank of its information.
pub contributions-IsShared :
    (source : String) (infos : List ContributionInformations) (s t : Contributors)
    (cs : List Contribution)
    → contributions source infos s ≡ (ok cs, t)
    → (caches : Caches) × IsShared caches infos cs
unfolding contributions pure
contributions-IsShared source infos s t cs h =
    let made = bind-inversion (contributions_from source infos no_caches) _ h in
    let shared = contributions_from-IsShared source infos no_caches s made.1 made.0 made.2 in
    (
      (made.0).1,
      subst (IsShared (made.0).1 infos) (pure-inversion (made.0).0 cs made.1 t made.3) shared.1,
    )
