-- ===== src/Message/Maps/Laws.antt =====
-- Maps with different keys: setting, and visiting in the order of the keys.
use mathlib.Core.List.{Permᴰ}
use protoc_gen_codec.Base.{
  All, Bool, Bool-cases, List, [], ap, arith, false, if◌then◌else◌, inl, inr, map, refl, subst, sym,
  true, ℕ, ◌++◌, ◌∙◌, ◌∷◌, ◌≡◌,
}
use protoc_gen_codec.Message.Maps.{map_get, map_set, sum_of}

-- What holds for every entry, holds in every order of them.
pub All-Permᴰ : {A : Type 0} (P : A → Type 0) {m m' : List A} → Permᴰ m m' → All P m → All P m'
All-Permᴰ P Permᴰ.nil h = h
All-Permᴰ P (Permᴰ.cons e d) h = (subst P e h.0, All-Permᴰ P d h.1)
All-Permᴰ P (Permᴰ.swap e f) h = (subst P f h.1.0, (subst P e h.0, h.1.1))
All-Permᴰ P (Permᴰ.trans d d') h = All-Permᴰ P d' (All-Permᴰ P d h)

pub All-both :
    {A : Type 0} {P Q R : A → Type 0} (m : List A)
    → ((a : A) → P a → Q a → R a)
    → All P m
    → All Q m
    → All R m
All-both [] f p q = tt
All-both (a ∷ m) f p q = (f a p.0 q.0, All-both m f p.1 q.1)

pub sum_of-Permᴰ : {A : Type 0} (f : A → ℕ) {m m' : List A} → Permᴰ m m' → sum_of f m ≡ sum_of f m'
sum_of-Permᴰ f Permᴰ.nil = refl
sum_of-Permᴰ f (Permᴰ.cons e d) = omega (arith, ap f e, sum_of-Permᴰ f d)
sum_of-Permᴰ f (Permᴰ.swap e e') = omega (arith, ap f e, ap f e')
sum_of-Permᴰ f (Permᴰ.trans d d') = sum_of-Permᴰ f d ∙ sum_of-Permᴰ f d'

module _ {K V : Type 0} (eq : K → K → Bool) where
  abbrev pub Distinct : List (K × V) → Type 0
  Distinct [] = Unit {0}
  Distinct (p ∷ m) = All (λ q. eq p.0 q.0 ≡ false) m × Distinct m

  pub map_set-absent :
      (got : List (K × V)) (p : K × V)
      → All (λ q. eq q.0 p.0 ≡ false) got
      → map_set eq got p.0 p.1 ≡ got ++ (p ∷ [])
  unfolding map_set
  map_set-absent [] p h = refl
  map_set-absent (q ∷ got) p h = rw h.0 (ap (λ x. q ∷ x) (map_set-absent got p h.1))

  pub absent_before :
      (got : List (K × V)) (p : K × V) (ps : List (K × V))
      → Distinct (got ++ (p ∷ ps))
      → All (λ q. eq q.0 p.0 ≡ false) got
  absent_before [] p ps h = tt
  absent_before (q ∷ got) p ps h = (middle got h.0, absent_before got p ps h.1)
    where
      middle :
          (got : List (K × V))
          → All (λ x. eq q.0 x.0 ≡ false) (got ++ (p ∷ ps))
          → eq q.0 p.0 ≡ false
      middle [] g = g.0
      middle (x ∷ got) g = middle got g.1

  module _ (eq-sym : (j k : K) → eq j k ≡ eq k j) where
    pub Distinct-Permᴰ : {m m' : List (K × V)} → Permᴰ m m' → Distinct m → Distinct m'
    Distinct-Permᴰ Permᴰ.nil h = h
    Distinct-Permᴰ (Permᴰ.cons {l₂ = l₂} e d) h = (
      subst (λ (x : K × V). All (λ q. eq x.0 q.0 ≡ false) l₂) e (All-Permᴰ _ d h.0),
      Distinct-Permᴰ d h.1,
    )
    Distinct-Permᴰ (Permᴰ.swap {a = a} {b = b} {a' = a'} {b' = b'} {l = l} e f) h = (
      (
        ap (λ (x : K × V). eq x.0 b'.0) (sym f)
            ∙ ap (λ (x : K × V). eq b.0 x.0) (sym e)
            ∙ eq-sym b.0 a.0
            ∙ h.0.0,
        subst (λ (x : K × V). All (λ q. eq x.0 q.0 ≡ false) l) f h.1.0,
      ),
      (subst (λ (x : K × V). All (λ q. eq x.0 q.0 ≡ false) l) e h.0.1, h.1.1),
    )
    Distinct-Permᴰ (Permᴰ.trans d d') h = Distinct-Permᴰ d' (Distinct-Permᴰ d h)

    module _ (eq→≡ : (j k : K) → eq j k ≡ true → j ≡ k) (zero_value : V) (k : K) where
      pub map_get-Permᴰ :
          {m m' : List (K × V)}
          → Permᴰ m m'
          → Distinct m
          → map_get eq zero_value m k ≡ map_get eq zero_value m' k
      unfolding map_get
      map_get-Permᴰ Permᴰ.nil h = refl
      map_get-Permᴰ (Permᴰ.cons {b = b} {l₁ = l₁} e d) h =
          ap (λ (x : K × V). map_get eq zero_value (x ∷ l₁) k) e
          ∙ ap (λ rest. if eq b.0 k then b.1 else rest) (map_get-Permᴰ d h.1)
      map_get-Permᴰ (Permᴰ.swap {a = a} {b = b} {a' = a'} {b' = b'} {l = l} e f) h =
          swapped
          ∙ ap (λ (x : K × V). map_get eq zero_value (x ∷ a ∷ l) k) f
          ∙ ap (λ (x : K × V). map_get eq zero_value (a' ∷ x ∷ l) k) e
        where
          swapped : map_get eq zero_value (a ∷ b ∷ l) k ≡ map_get eq zero_value (b ∷ a ∷ l) k
          swapped = elim (Bool-cases (eq a.0 k)) [
            | inr no_a ↦ rw no_a refl
            | inl at_a ↦ elim (Bool-cases (eq b.0 k)) [
              | inr no_b ↦ rw (at_a, no_b) refl
              | inl at_b ↦
                  absurd (
                    ground (arith, h.0.0, at_b, ap (λ x. eq x b.0) (eq→≡ a.0 k at_a), eq-sym b.0 k))
            ]
          ]
      map_get-Permᴰ (Permᴰ.trans d d') h = map_get-Permᴰ d h ∙ map_get-Permᴰ d' (Distinct-Permᴰ d h)

    module _ (eq-refl : (k : K) → eq k k ≡ true) (zero_value : V) where
      found_in : (m : List (K × V)) → Distinct m → All (λ q. map_get eq zero_value m q.0 ≡ q.1) m
      unfolding map_get
      found_in [] h = tt
      found_in (p ∷ m) h = (
        rw (eq-refl p.0) refl,
        All-both m
            (λ q (other : eq p.0 q.0 ≡ false) (here : map_get eq zero_value m q.0 ≡ q.1).
              rw other here)
            h.0 (found_in m h.1),
      )

      entries_of :
          (whole m : List (K × V))
          → All (λ q. map_get eq zero_value whole q.0 ≡ q.1) m
          → map (λ k. (k, map_get eq zero_value whole k)) (map (λ p. p.0) m) ≡ m
      entries_of whole [] h = refl
      entries_of whole (p ∷ m) h =
          ap (λ v. (p.0, v) ∷ map (λ k. (k, map_get eq zero_value whole k)) (map (λ p. p.0) m)) h.0
          ∙ ap (λ x. p ∷ x) (entries_of whole m h.1)

      pub entries_lem :
          (m : List (K × V))
          → Distinct m
          → map (λ k. (k, map_get eq zero_value m k)) (map (λ p. p.0) m) ≡ m
      entries_lem m h = entries_of m m (found_in m h)
