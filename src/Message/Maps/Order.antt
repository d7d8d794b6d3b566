-- ===== src/Message/Maps/Order.antt =====
-- The order of strings is total, and sorting does not depend on the order that it is given.
use mathlib.Core.List.{Permᴰ}
use mathlib.Core.List.Permᴰ
use protoc_gen_codec.Base.{
  Bool-cases, List, [], ap, arith, false, inl, inr, refl, sym, true, ℕ, ◌∙◌, ◌∷◌, ◌≡◌,
}
use protoc_gen_codec.Message.Maps.{bytes_eq, bytes_leq, insert_string, sort_strings}

pub bytes_eq_refl : (s : List ℕ) → bytes_eq s s ≡ true
unfolding bytes_eq
bytes_eq_refl [] = refl
bytes_eq_refl (b ∷ s) = rw (bytes_eq_refl s) (ground arith)

pub bytes_eq-sym : (s t : List ℕ) → bytes_eq s t ≡ bytes_eq t s
unfolding bytes_eq
bytes_eq-sym [] [] = refl
bytes_eq-sym [] (c ∷ t) = refl
bytes_eq-sym (b ∷ s) [] = refl
bytes_eq-sym (b ∷ s) (c ∷ t) = rw (bytes_eq-sym s t) (ground arith)

pub bytes_leq-total : (s t : List ℕ) → bytes_leq s t ≡ false → bytes_leq t s ≡ true
unfolding bytes_leq
bytes_leq-total [] t h = ground (arith, h)
bytes_leq-total (b ∷ s) [] h = refl
bytes_leq-total (b ∷ s) (c ∷ t) h = ground (arith, h, bytes_leq-total s t)

pub bytes_leq-antisym : (s t : List ℕ) → bytes_leq s t ≡ true → bytes_leq t s ≡ true → s ≡ t
unfolding bytes_leq
bytes_leq-antisym [] [] h g = refl
bytes_leq-antisym [] (c ∷ t) h g = ground (arith, g)
bytes_leq-antisym (b ∷ s) [] h g = ground (arith, h)
bytes_leq-antisym (b ∷ s) (c ∷ t) h g =
    let (heads, tails, back) : (b ≡ c) × (bytes_leq s t ≡ true) × (bytes_leq t s ≡ true) =
      ground (arith, h, g) in
    ap (λ (p : ℕ × List ℕ). p.0 ∷ p.1) (pair heads (bytes_leq-antisym s t tails back))
  where
    pair : {x y : ℕ} {u w : List ℕ} → x ≡ y → u ≡ w → Path (ℕ × List ℕ) (x, u) (y, w)
    pair p q i = (p i, q i)

pub bytes_leq_trans :
    (s t u : List ℕ) → bytes_leq s t ≡ true → bytes_leq t u ≡ true → bytes_leq s u ≡ true
unfolding bytes_leq
bytes_leq_trans [] t u h g = refl
bytes_leq_trans (b ∷ s) [] u h g = ground (arith, h)
bytes_leq_trans (b ∷ s) (c ∷ t) [] h g = g
bytes_leq_trans (b ∷ s) (c ∷ t) (d ∷ u) h g = ground (arith, h, g, bytes_leq_trans s t u)

-- What stands behind `u` does not come before what stands before it.
not_before : (s t u : List ℕ) → bytes_leq t u ≡ true → bytes_leq s u ≡ false → bytes_leq s t ≡ false
not_before s t u tu su = elim (Bool-cases (bytes_leq s t)) [
  | inl st ↦ absurd (ground (arith, su, bytes_leq_trans s t u st tu))
  | inr no_case ↦ no_case
]

insert_front :
    (s t : List ℕ) (us : List (List ℕ))
    → bytes_leq s t ≡ true
    → insert_string s (t ∷ us) ≡ s ∷ t ∷ us
unfolding insert_string
insert_front s t us h = rw h refl

insert_behind :
    (s t : List ℕ) (us : List (List ℕ))
    → bytes_leq s t ≡ false
    → insert_string s (t ∷ us) ≡ t ∷ insert_string s us
unfolding insert_string
insert_behind s t us h = rw h refl

-- Two strings that both belong to the front of a list.
swap_front :
    (s t : List ℕ) (us : List (List ℕ))
    → insert_string s us ≡ s ∷ us
    → insert_string t us ≡ t ∷ us
    → insert_string s (t ∷ us) ≡ insert_string t (s ∷ us)
swap_front s t us hs ht = elim (Bool-cases (bytes_leq s t)) [
  | inr st ↦
      insert_behind s t us st
      ∙ ap (λ x. t ∷ x) hs
      ∙ sym (insert_front t s us (bytes_leq-total s t st))
  | inl st ↦ elim (Bool-cases (bytes_leq t s)) [
    | inr ts ↦ insert_front s t us st ∙ ap (λ x. s ∷ x) (sym ht) ∙ sym (insert_behind t s us ts)
    | inl ts ↦
        ap (λ x. insert_string x (t ∷ us)) (same st ts)
        ∙ ap (λ x. insert_string t (x ∷ us)) (sym (same st ts))
  ]
]
  where
    same : bytes_leq s t ≡ true → bytes_leq t s ≡ true → s ≡ t
    same st ts = bytes_leq-antisym s t st ts

insert_string_comm :
    (s t : List ℕ) (us : List (List ℕ))
    → insert_string s (insert_string t us) ≡ insert_string t (insert_string s us)
unfolding insert_string
insert_string_comm s t [] = swap_front s t [] refl refl
insert_string_comm s t (u ∷ us) = elim (Bool-cases (bytes_leq t u)) [
  | inl tu ↦ elim (Bool-cases (bytes_leq s u)) [
    | inl su ↦
        ap (insert_string s) (insert_front t u us tu)
        ∙ swap_front s t (u ∷ us) (insert_front s u us su) (insert_front t u us tu)
        ∙ ap (insert_string t) (sym (insert_front s u us su))
    | inr su ↦
        ap (insert_string s) (insert_front t u us tu)
        ∙ insert_behind s t (u ∷ us) (not_before s t u tu su)
        ∙ ap (λ x. t ∷ x) (insert_behind s u us su)
        ∙ sym (insert_front t u (insert_string s us) tu)
        ∙ ap (insert_string t) (sym (insert_behind s u us su))
  ]
  | inr tu ↦ elim (Bool-cases (bytes_leq s u)) [
    | inl su ↦
        ap (insert_string s) (insert_behind t u us tu)
        ∙ insert_front s u (insert_string t us) su
        ∙ ap (λ x. s ∷ x) (sym (insert_behind t u us tu))
        ∙ sym (insert_behind t s (u ∷ us) (not_before t s u su tu))
        ∙ ap (insert_string t) (sym (insert_front s u us su))
    | inr su ↦
        ap (insert_string s) (insert_behind t u us tu)
        ∙ insert_behind s u (insert_string t us) su
        ∙ ap (λ x. u ∷ x) (insert_string_comm s t us)
        ∙ sym (insert_behind t u (insert_string s us) tu)
        ∙ ap (insert_string t) (sym (insert_behind s u us su))
  ]
]

insert_string-Permᴰ : (s : List ℕ) (ts : List (List ℕ)) → Permᴰ (insert_string s ts) (s ∷ ts)
unfolding insert_string
insert_string-Permᴰ s [] = Permᴰ.refl (s ∷ [])
insert_string-Permᴰ s (t ∷ ts) = elim (Bool-cases (bytes_leq s t)) [
  | inl yes_case ↦ rw yes_case (Permᴰ.refl (s ∷ t ∷ ts))
  | inr no_case ↦
      rw no_case (Permᴰ.trans (Permᴰ.cons refl (insert_string-Permᴰ s ts)) (Permᴰ.swap refl refl))
]

-- Sorting gives the same strings, and the same list for every order of them.
pub sort_strings-Permᴰ : (ss : List (List ℕ)) → Permᴰ (sort_strings ss) ss
unfolding sort_strings
sort_strings-Permᴰ [] = Permᴰ.nil
sort_strings-Permᴰ (s ∷ ss) =
    Permᴰ.trans (insert_string-Permᴰ s (sort_strings ss)) (Permᴰ.cons refl (sort_strings-Permᴰ ss))

pub sort_strings-same : {ss ts : List (List ℕ)} → Permᴰ ss ts → sort_strings ss ≡ sort_strings ts
unfolding sort_strings
sort_strings-same Permᴰ.nil = refl
sort_strings-same (Permᴰ.cons {b = b} {l₁ = l₁} p q) =
    ap (λ x. insert_string x (sort_strings l₁)) p ∙ ap (insert_string b) (sort_strings-same q)
sort_strings-same (Permᴰ.swap {a = a} {b = b} {a' = a'} {b' = b'} {l = l} p q) =
    insert_string_comm a b (sort_strings l)
    ∙ ap (λ x. insert_string x (insert_string a (sort_strings l))) q
    ∙ ap (λ x. insert_string a' (insert_string x (sort_strings l))) p
sort_strings-same (Permᴰ.trans p q) = sort_strings-same p ∙ sort_strings-same q
