-- ===== src/Message/Maps/Sorted.antt =====
-- The entries of a map in the order of their keys: the same entries, in an order that does not
-- depend on how the map is ranged over.
use mathlib.Core.List.{Permᴰ}
use mathlib.Core.List.Permᴰ
use protoc_gen_codec.Base.{List, [], ap, arith, map, refl, subst, true, ℕ, ◌∙◌, ◌∷◌, ◌≡◌}
use protoc_gen_codec.Message.Maps.{by_key, bytes_eq, map_get, sort_strings}
use protoc_gen_codec.Message.Maps.Laws.{Distinct, Distinct-Permᴰ, entries_lem, map_get-Permᴰ}
use protoc_gen_codec.Message.Maps.Order.{
  bytes_eq_refl, bytes_eq-sym, sort_strings-Permᴰ, sort_strings-same,
}

pub bytes_eq→≡ : (s t : List ℕ) → bytes_eq s t ≡ true → s ≡ t
unfolding bytes_eq
bytes_eq→≡ [] [] h = refl
bytes_eq→≡ [] (c ∷ t) h = ground (arith, h)
bytes_eq→≡ (b ∷ s) [] h = ground (arith, h)
bytes_eq→≡ (b ∷ s) (c ∷ t) h =
    let (heads, tails) : (b ≡ c) × (bytes_eq s t ≡ true) = ground (arith, h) in
    ap (λ x. x ∷ s) heads ∙ ap (λ x. c ∷ x) (bytes_eq→≡ s t tails)

module _ {V : Type 0} (zero_value : V) where
  pub by_key-Permᴰ : (m : List (List ℕ × V)) → Distinct bytes_eq m → Permᴰ (by_key zero_value m) m
  unfolding by_key
  by_key-Permᴰ m h =
      subst (Permᴰ (by_key zero_value m))
        (entries_lem bytes_eq bytes_eq-sym bytes_eq_refl zero_value m h)
        (Permᴰ.map (λ k. (k, map_get bytes_eq zero_value m k))
          (sort_strings-Permᴰ (map (λ p. p.0) m)))

  pub by_key-Distinct :
      (m : List (List ℕ × V)) → Distinct bytes_eq m → Distinct bytes_eq (by_key zero_value m)
  by_key-Distinct m h = Distinct-Permᴰ bytes_eq bytes_eq-sym (Permᴰ.symm (by_key-Permᴰ m h)) h

  pub by_key-same :
      (m m' : List (List ℕ × V))
      → Permᴰ m m'
      → Distinct bytes_eq m
      → by_key zero_value m ≡ by_key zero_value m'
  unfolding by_key
  by_key-same m m' d h =
      ap (map (λ k. (k, map_get bytes_eq zero_value m k)))
        (sort_strings-same (Permᴰ.map (λ p. p.0) d))
      ∙ ap (λ f. map f (sort_strings (map (λ p. p.0) m'))) same_entries
    where
      same_entries :
          Path
            (List ℕ → List ℕ × V)
            (λ k. (k, map_get bytes_eq zero_value m k))
            (λ k. (k, map_get bytes_eq zero_value m' k))
      same_entries i k = (k, map_get-Permᴰ bytes_eq bytes_eq-sym bytes_eq→≡ zero_value k d h i)
