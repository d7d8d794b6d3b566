-- ===== src/Message/Maps.antt =====
-- Go maps, and the order in which the generated methods visit them. A map is the list of its entries
-- in the order that a `range` over it has; keys are different. A nil map is the empty one.
pub mod Order
pub mod Laws
pub mod Sorted
use protoc_gen_codec.Base.{
  Bool, List, [], false, if◌then◌else◌, ltb, map, true, ℕ, ◌&&◌, ◌+◌, ◌==◌, ◌∷◌,
}

module _ {K V : Type 0} (eq : K → K → Bool) where
  -- `m[k]`: the zero value where the key is missing.
  unfoldable pub map_get : V → List (K × V) → K → V
  map_get zero_value [] k = zero_value
  map_get zero_value (p ∷ m) k = let rest = map_get zero_value m k in if eq p.0 k then p.1 else rest

  -- `m[k] = v`
  unfoldable pub map_set : List (K × V) → K → V → List (K × V)
  map_set [] k v = (k, v) ∷ []
  map_set (p ∷ m) k v = let rest = map_set m k v in if eq p.0 k then (k, v) ∷ m else p ∷ rest

  -- `_, ok := m[k]`
  unfoldable pub map_has : List (K × V) → K → Bool
  map_has [] k = false
  map_has (p ∷ m) k = let rest = map_has m k in if eq p.0 k then true else rest

-- Strings are compared byte by byte.
unfoldable pub bytes_eq : List ℕ → List ℕ → Bool
bytes_eq [] [] = true
bytes_eq [] (c ∷ t) = false
bytes_eq (b ∷ s) [] = false
bytes_eq (b ∷ s) (c ∷ t) = b == c && bytes_eq s t

unfoldable pub bytes_leq : List ℕ → List ℕ → Bool
bytes_leq [] t = true
bytes_leq (b ∷ s) [] = false
bytes_leq (b ∷ s) (c ∷ t) =
    let rest = bytes_leq s t in if ltb b c then true else if ltb c b then false else rest

-- `slices.Sort(keys)`
unfoldable pub insert_string : List ℕ → List (List ℕ) → List (List ℕ)
insert_string s [] = s ∷ []
insert_string s (t ∷ ts) =
    let rest = insert_string s ts in if bytes_leq s t then s ∷ t ∷ ts else t ∷ rest

unfoldable pub sort_strings : List (List ℕ) → List (List ℕ)
sort_strings [] = []
sort_strings (s ∷ ss) = insert_string s (sort_strings ss)

-- `for k := range m { keys = append(keys, k) }; slices.Sort(keys)`, and then
-- `for _, k := range keys { v := m[k]; … }`: the entries in the order of their keys.
unfoldable pub by_key : {V : Type 0} → V → List (List ℕ × V) → List (List ℕ × V)
by_key zero_value m =
    map (λ k. (k, map_get bytes_eq zero_value m k)) (sort_strings (map (λ p. p.0) m))

-- `for k, v := range m { n += … }`
abbrev pub sum_of : {A : Type 0} → (A → ℕ) → List A → ℕ
sum_of f [] = 0
sum_of f (a ∷ m) = f a + sum_of f m
