-- ===== src/Prelude/Permutations.antt =====
-- Permutations of lists with the derivation kept, and how predicates and other lists follow them.
use mathlib.Core.Path.{◌≡◌, refl, sym, subst}
use mathlib.Core.List.{List, [], ◌∷◌, ◌++◌, Permᴰ, append_assoc}
use mathlib.Core.List.Permᴰ
use svp_harvester.Prelude.Lists.{All}

module _ {ℓ} {A : Type ℓ} where
  pub All-Permᴰ {κ} : (P : A → Type κ) {xs ys : List A} → Permᴰ xs ys → All P xs → All P ys
  All-Permᴰ P Permᴰ.nil h = tt
  All-Permᴰ P (Permᴰ.cons e d) h = (subst P e h.0, All-Permᴰ P d h.1)
  All-Permᴰ P (Permᴰ.swap e f) h = (subst P f (h.1).0, (subst P e h.0, (h.1).1))
  All-Permᴰ P (Permᴰ.trans d e) h = All-Permᴰ P e (All-Permᴰ P d h)

  pub All-append_left {κ} : (P : A → Type κ) (xs ys : List A) → All P (xs ++ ys) → All P xs
  All-append_left P [] ys h = tt
  All-append_left P (x ∷ xs) ys h = (h.0, All-append_left P xs ys h.1)

  pub All-append_right {κ} : (P : A → Type κ) (xs ys : List A) → All P (xs ++ ys) → All P ys
  All-append_right P [] ys h = h
  All-append_right P (x ∷ xs) ys h = All-append_right P xs ys h.1

  pub move_first : (xs ys zs : List A) → Permᴰ (xs ++ (ys ++ zs)) (ys ++ (xs ++ zs))
  move_first xs ys zs =
      subst (λ l. Permᴰ l (ys ++ (xs ++ zs))) (append_assoc xs ys zs)
        (subst (λ l. Permᴰ ((xs ++ ys) ++ zs) l) (append_assoc ys xs zs)
          (Permᴰ.append_right zs (Permᴰ.append_comm xs ys)))

  pub append-Permᴰ :
      {xs xs' ys ys' : List A} → Permᴰ xs xs' → Permᴰ ys ys' → Permᴰ (xs ++ ys) (xs' ++ ys')
  append-Permᴰ {xs'} {ys} d e = Permᴰ.trans (Permᴰ.append_right ys d) (Permᴰ.append_left xs' e)

  pub exchange :
      (ws bs cs ds : List A) → Permᴰ ((ws ++ bs) ++ (cs ++ ds)) ((ws ++ cs) ++ (bs ++ ds))
  exchange ws bs cs ds =
      rw (append_assoc ws bs (cs ++ ds), append_assoc ws cs (bs ++ ds))
        (Permᴰ.append_left ws (move_first bs cs ds))

-- The lists of several elements, one after the other.
abbrev pub concat_map {ℓ κ} : {A : Type ℓ} {B : Type κ} → (A → List B) → List A → List B
concat_map f [] = []
concat_map f (x ∷ xs) = f x ++ concat_map f xs

module _ {ℓ κ} {A : Type ℓ} {B : Type κ} (f : A → List B) where
  pub concat_map-append :
      (xs ys : List A) → concat_map f (xs ++ ys) ≡ concat_map f xs ++ concat_map f ys
  concat_map-append [] ys = refl
  concat_map-append (x ∷ xs) ys =
      rw (concat_map-append xs ys) (sym (append_assoc (f x) (concat_map f xs) (concat_map f ys)))

  pub concat_map-Permᴰ : {xs ys : List A} → Permᴰ xs ys → Permᴰ (concat_map f xs) (concat_map f ys)
  concat_map-Permᴰ Permᴰ.nil = Permᴰ.nil
  concat_map-Permᴰ (Permᴰ.cons {a} {b} {l₁} {l₂} e d) =
      subst (λ z. Permᴰ (f a ++ concat_map f l₁) (f z ++ concat_map f l₂)) e
        (Permᴰ.append_left (f a) (concat_map-Permᴰ d))
  concat_map-Permᴰ (Permᴰ.swap {a} {b} {b'} {l} e g) =
      subst (λ z. Permᴰ (f a ++ (f b ++ concat_map f l)) (f z ++ (f b' ++ concat_map f l))) g
        (subst (λ z. Permᴰ (f a ++ (f b ++ concat_map f l)) (f b ++ (f z ++ concat_map f l))) e
          (move_first (f a) (f b) (concat_map f l)))
  concat_map-Permᴰ (Permᴰ.trans d e) = Permᴰ.trans (concat_map-Permᴰ d) (concat_map-Permᴰ e)
