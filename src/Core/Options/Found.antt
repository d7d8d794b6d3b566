-- ===== src/Core/Options/Found.antt =====
-- The scan over raw options for a string, on options that an encoder wrote.
use protoc_gen_codec.Base.{
  Bool-cases, List, [], arith, drop-append, false, if◌then◌else◌, inl, inr, length, length-append,
  le→leb, refl, some, suc, zero, ℕ, ◌++◌, ◌<◌, ◌==◌, ◌^◌, ◌∷◌, ◌≡◌, ◌≤◌,
}
use protoc_gen_codec.Core.Options.{
  Outcome, Protowire, answered, consuming, extract_loop, extract_string_from_raw, tag_of_raw,
}
use protoc_gen_codec.Wire.Loop.Laws.{tag_of}

-- From MinValidNumber to MaxValidNumber of protowire; ConsumeTag refuses the number 0.
abbrev pub IsNumber : ℕ → Type 0
IsNumber num = (1 ≤ num) × (num < 2 ^ 29)

-- What the documentation of protowire says of the bytes of an entry: its tag, of the wire type of bytes,
-- and its value are read back, whatever follows, with the number of their bytes.
pub record IsEncoding (w : Protowire) (tag_of : ℕ → List ℕ) (bytes_of : List ℕ → List ℕ)
    : Type 0 where
  pub tag_long : (num : ℕ) → IsNumber num → 1 ≤ length (tag_of num)
  pub tag_read :
      (num : ℕ) (rest : List ℕ)
      → IsNumber num
      → w.consume_tag (tag_of num ++ rest) ≡ some (num, 2, length (tag_of num))
  pub bytes_read :
      (s rest : List ℕ)
      → length s < 2 ^ 63
      → w.consume_bytes (bytes_of s ++ rest) ≡ some (s, length (bytes_of s))

-- The entries of raw options, numbers with their strings.
abbrev pub AreEntries : List (ℕ × List ℕ) → Type 0
AreEntries [] = Unit {0}
AreEntries ((k, s) ∷ es) = IsNumber k × (length s < 2 ^ 63) × AreEntries es

-- The string of the first entry with the number, or the empty one.
unfoldable pub first_string : ℕ → List (ℕ × List ℕ) → List ℕ
first_string num [] = []
first_string num ((k, s) ∷ es) = if k == num then s else first_string num es

unfoldable pub raw_of : (ℕ → List ℕ) → (List ℕ → List ℕ) → List (ℕ × List ℕ) → List ℕ
raw_of tag_of bytes_of [] = []
raw_of tag_of bytes_of ((k, s) ∷ es) = tag_of k ++ (bytes_of s ++ raw_of tag_of bytes_of es)

consuming_front :
    {X A : Type 0} (x : X) (front rest : List ℕ) (r : A) (k : X → List ℕ → Outcome A)
    → consuming (some (x, length front)) (front ++ rest) r k ≡ k x rest
consuming_front x front rest r k =
    rw
      (
        le→leb (length front) (length (front ++ rest)) (omega (arith, length-append front rest)),
        drop-append front rest,
      )
      refl

positive : (n : ℕ) → 1 ≤ n → (n == 0) ≡ false
positive zero h = absurd (omega (arith, h))
positive (suc n) h = ground arith

module _ (w : Protowire) (tag_of : ℕ → List ℕ) (bytes_of : List ℕ → List ℕ)
    (laws : IsEncoding w tag_of bytes_of) where
  tag_front :
      (k : ℕ) (rest : List ℕ)
      → IsNumber k
      → tag_of_raw w (tag_of k ++ rest) ≡ some ((k, 2), length (tag_of k))
  tag_front k rest h = rw (tag_of_raw, laws.tag_read k rest h) refl

  tag_first : (k : ℕ) (rest : List ℕ) → IsNumber k → (length (tag_of k ++ rest) == 0) ≡ false
  tag_first k rest h =
      positive (length (tag_of k ++ rest))
        (omega (arith, length-append (tag_of k) rest, laws.tag_long k h))

  found_loop :
      (fuel num : ℕ) (es : List (ℕ × List ℕ))
      → AreEntries es
      → length (raw_of tag_of bytes_of es) ≤ fuel
      → extract_loop w 2 w.consume_bytes [] (λ s. s) num fuel (raw_of tag_of bytes_of es)
        ≡ answered (first_string num es)
  unfolding extract_loop raw_of first_string
  found_loop zero num [] v h = refl
  found_loop (suc fuel) num [] v h = refl
  found_loop zero num ((k, s) ∷ es) v h = absurd (
      omega (
        arith,
        h,
        length-append (tag_of k) (bytes_of s ++ raw_of tag_of bytes_of es),
        laws.tag_long k v.0,
      ))
  found_loop (suc fuel) num ((k, s) ∷ es) v h =
      rw
        (
          tag_first k (bytes_of s ++ raw_of tag_of bytes_of es) v.0,
          tag_front k (bytes_of s ++ raw_of tag_of bytes_of es) v.0,
          consuming_front {X = ℕ × ℕ} (k, 2) (tag_of k) (bytes_of s ++ raw_of tag_of bytes_of es),
          laws.bytes_read s (raw_of tag_of bytes_of es) v.1,
          consuming_front s (bytes_of s) (raw_of tag_of bytes_of es),
        )
        (elim (Bool-cases (k == num)) [
          | inl here ↦ rw here refl
          | inr there ↦ rw there (
              found_loop fuel num es v.2 (
                omega (
                  arith,
                  h,
                  laws.tag_long k v.0,
                  length-append (tag_of k) (bytes_of s ++ raw_of tag_of bytes_of es),
                  length-append (bytes_of s) (raw_of tag_of bytes_of es),
                )))
        ])

  -- On raw options that hold entries with numbers from 1 to 2 ^ 29 - 1 and strings shorter than 2 ^ 63, one after
  -- the other, each with its tag and its string as protowire reads them back, the scan for a string returns
  -- that of the first entry with the number, and the empty string where no entry has it.
  pub extract_string-first_string :
      (es : List (ℕ × List ℕ)) (num : ℕ)
      → AreEntries es
      → extract_string_from_raw w (raw_of tag_of bytes_of es) num ≡ answered (first_string num es)
  unfolding extract_string_from_raw
  extract_string-first_string es num v =
      found_loop (length (raw_of tag_of bytes_of es)) num es v (omega arith)
