-- ===== src/Prelude/Action.antt =====
-- Methods that change an object and may raise: state passing with an exception as a value. What
-- was written before a raise stays written, so the state comes back on the raising path too.
use mathlib.Core.Path.{◌≡◌, refl, ap, subst}
use mathlib.Core.Logic.{◌⊎◌, inl, inr}

pub data Outcome {ℓ κ} (E : Type ℓ) (A : Type κ) : Type (ℓ ⊔ κ) where
  ok : A → Outcome E A
  raised : E → Outcome E A

abbrev pub Action {ℓ κ μ} : Type ℓ → Type κ → Type μ → Type (ℓ ⊔ κ ⊔ μ)
Action S E A = S → Outcome E A × S

module _ {ℓ κ μ} {S : Type ℓ} {E : Type κ} {A : Type μ} where
  unfoldable pub pure : A → Action S E A
  pure a s = (ok a, s)

  unfoldable pub raise : E → Action S E A
  raise e s = (raised e, s)

  -- A value or an exception that was computed without the state.
  unfoldable pub lift : Outcome E A → Action S E A
  lift o s = (o, s)

  unfoldable pub gets : (S → A) → Action S E A
  gets f s = (ok (f s), s)

  -- `try: m` with one handler for every exception.
  unfoldable pub catch : Action S E A → (E → Action S E A) → Action S E A
  catch m h s = let r = m s in elim (r.0) [ ok a ↦ (ok a, r.1) | raised e ↦ h e r.1 ]

unfoldable pub modify {ℓ κ} : {S : Type ℓ} {E : Type κ} → (S → S) → Action S E (Unit {0})
modify f s = (ok tt, f s)

module _ {ℓ κ μ ν} {S : Type ℓ} {E : Type κ} {A : Type μ} {B : Type ν} where
  infixl 5 ◌>>=◌ ◌>>◌
  -- To open it is to open the actions that a block is made of.
  unfoldable pub ◌>>=◌ : Action S E A → (A → Action S E B) → Action S E B
  unfolding pure raise lift gets modify
  ◌>>=◌ m f s = let r = m s in elim (r.0) [ ok a ↦ f a r.1 | raised e ↦ (raised e, r.1) ]

  abbrev pub ◌>>◌ : Action S E A → Action S E B → Action S E B
  m >> n = m >>= λ _. n

-- The action keeps `P`, whether it returns or raises.
abbrev pub Preserves {ℓ κ μ ν} :
    {S : Type ℓ} {E : Type κ} {A : Type μ} → (S → Type ν) → Action S E A → Type (ℓ ⊔ ν)
Preserves {S} P m = (s : S) → P s → P (m s).1

module _ {ℓ κ μ ν} {S : Type ℓ} {E : Type κ} {P : S → Type ν} where
  module _ {A : Type μ} where
    pub Preserves-catch :
        (m : Action S E A) (h : E → Action S E A)
        → Preserves P m
        → ((e : E) → Preserves P (h e))
        → Preserves P (catch m h)
    unfolding catch
    Preserves-catch m h keep handle s p = go (m s).0 (m s).1 (keep s p)
      where
        go :
            (o : Outcome E A) (t : S)
            → P t
            → P (elim o as (λ _. Outcome E A × S) [ ok a ↦ (ok a, t) | raised e ↦ h e t ]).1
        go (ok a) t q = q
        go (raised e) t q = handle e t q

  module _ {A B : Type μ} where
    pub Preserves-bind :
        (m : Action S E A) (f : A → Action S E B)
        → Preserves P m
        → ((a : A) → Preserves P (f a))
        → Preserves P (m >>= f)
    unfolding ◌>>=◌
    Preserves-bind m f keep next s p = go (m s).0 (m s).1 (keep s p)
      where
        go :
            (o : Outcome E A) (t : S)
            → P t
            → P (elim o as (λ _. Outcome E B × S) [ ok a ↦ f a t | raised e ↦ (raised e, t) ]).1
        go (ok a) t q = next a t q
        go (raised e) t q = q

-- To split on an outcome and keep the equation.
pub Outcome-cases {ℓ κ} :
    {E : Type ℓ} {A : Type κ} (o : Outcome E A)
    → ((a : A) × (o ≡ ok a)) ⊎ ((e : E) × (o ≡ raised e))
Outcome-cases (ok a) = inl (a, refl)
Outcome-cases (raised e) = inr (e, refl)

module _ {ℓ κ μ} {S : Type ℓ} {E : Type κ} {B : Type μ} where
  raised-ne-ok : {e : E} {b : B} {s t : S} → ◌≡◌ {A = Outcome E B × S} (raised e, s) (ok b, t) → ⊥
  raised-ne-ok p = subst IsRaised p tt
    where
      IsRaised : Outcome E B × S → Type 0
      IsRaised r = elim (r.0) [ ok b ↦ ⊥ | raised e ↦ Unit ]

module _ {ℓ κ μ ν} {S : Type ℓ} {E : Type κ} {A : Type μ} {B : Type ν} where
  abbrev after : (A → Action S E B) → Outcome E A × S → Outcome E B × S
  after f r = elim (r.0) [ ok a ↦ f a r.1 | raised e ↦ (raised e, r.1) ]

  -- What follows an action runs from the state that the action left, unless it raised.
  pub bind_of_ok :
      (m : Action S E A) (f : A → Action S E B) {s t : S} {a : A}
      → m s ≡ (ok a, t)
      → (m >>= f) s ≡ f a t
  unfolding ◌>>=◌
  bind_of_ok m f e = ap (after f) e

  pub bind_of_raised :
      (m : Action S E A) (f : A → Action S E B) {s t : S} {e : E}
      → m s ≡ (raised e, t)
      → (m >>= f) s ≡ (raised e, t)
  unfolding ◌>>=◌
  bind_of_raised m f e = ap (after f) e

  -- The steps of a block that returned.
  pub bind-inversion :
      (m : Action S E A) (f : A → Action S E B) {s t : S} {b : B}
      → (m >>= f) s ≡ (ok b, t)
      → (a : A) × (u : S) × (m s ≡ (ok a, u)) × (f a u ≡ (ok b, t))
  unfolding ◌>>=◌
  bind-inversion m f {s} {t} {b} h = go (m s).0 (m s).1 refl h
    where
      go :
          (o : Outcome E A) (u : S)
          → m s ≡ (o, u)
          → after f (o, u) ≡ (ok b, t)
          → (a : A) × (u : S) × (m s ≡ (ok a, u)) × (f a u ≡ (ok b, t))
      go (ok a) u e k = (a, u, e, k)
      go (raised x) u e k = absurd (raised-ne-ok k)

module _ {ℓ κ μ} {S : Type ℓ} {E : Type κ} {A : Type μ} where
  pub pure-inversion : (a b : A) (s t : S) → ◌≡◌ {A = Outcome E A × S} (ok a, s) (ok b, t) → a ≡ b
  pure-inversion a b s t h = ap value h
    where
      value : Outcome E A × S → A
      value r = elim (r.0) [ ok x ↦ x | raised e ↦ a ]
