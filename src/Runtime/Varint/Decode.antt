-- ===== src/Runtime/Varint/Decode.antt =====
-- `DecodeVarint` on any input: what it consumes, and which number it reads.
use protoc_gen_codec.Base.{
  ℕ, zero, suc, ◌+◌, ◌-◌, ◌*◌, ◌/◌, ◌%◌, ◌^◌, ◌≤◌, ◌<◌, ◌≡◌, refl, ◌∙◌, ap, bit_or,
}
use protoc_gen_codec.Base.{List, [], ◌∷◌, arith, ltb, length}
use protoc_gen_codec.Base.{
  inl, inr, Bool-cases, Option, none, some, if◌then◌else◌, leb, sym, ltb_false→le, ltb→lt, le→leb,
  Bool, true, false,
}
use protoc_gen_codec.Base.Bits.{bit_or_disjoint, bit_and_127}
use native.Mathlib.Nat.{
  pow-suc, div-add-mod, one-le-pow, suc-add, zero-add, add-mul-mod_self_right, mod-eq_of_lt,
  mul-lt-mul_of_pos_right, mod-lt, mul-le-mul_right,
}
use protoc_gen_codec.Runtime.Varint.{IsU64, shl64, decode_loop, decode_varint}

-- The bytes of a varint read as numbers to the base 128, the first byte the lowest.
unfoldable pub groups_value : ℕ → List ℕ → ℕ
groups_value zero bs = 0
groups_value (suc n) [] = 0
groups_value (suc n) (b ∷ bs) = b % 128 + 128 * groups_value n bs

-- The bytes up to the first one below 0x80, that one included.
unfoldable pub varint_span : List ℕ → Option ℕ
varint_span [] = none
varint_span (b ∷ bs) =
    if ltb b 0x80 then some 1 else elim (varint_span bs) [ none ↦ none | some n ↦ some (suc n) ]

pow-add : (n s : ℕ) → 2 ^ (n + s) ≡ 2 ^ n * 2 ^ s
pow-add zero s = rw zero-add (omega arith)
pow-add (suc n) s =
    rw suc-add
      (omega (arith, pow-suc 2 (n + s), ap (λ (t : ℕ). t * 2 ^ s) (pow-suc 2 n), pow-add n s))

restores : (s : ℕ) → s ≤ 64 → 64 - s + s ≡ 64
restores s h = omega arith

pow_rest : (s : ℕ) → s ≤ 64 → 2 ^ (64 - s) * 2 ^ s ≡ 2 ^ 64
pow_rest s h = sym (pow-add (64 - s) s) ∙ ap (λ (t : ℕ). 2 ^ t) (restores s h)

mod_common : (b q d : ℕ) → 0 < q → 0 < d → b * d % (q * d) ≡ b % q * d
mod_common b q d hq hd =
    ap (λ (t : ℕ). t % (q * d)) split
    ∙ add-mul-mod_self_right (b % q * d) (b / q) (q * d)
    ∙ mod-eq_of_lt (mul-lt-mul_of_pos_right (mod-lt b hq) hd)
  where
    split : b * d ≡ b % q * d + b / q * (q * d)
    split = omega (arith, ap (λ (t : ℕ). t * d) (div-add-mod b q))

-- Shifting out of the word keeps a multiple of `2 ^ s`.
shl64_multiple : (b s : ℕ) → s ≤ 64 → shl64 b s ≡ b % 2 ^ (64 - s) * 2 ^ s
shl64_multiple b s h = rw (← pow_rest s h) (
    mod_common b (2 ^ (64 - s)) (2 ^ s) (one-le-pow _ 2 (omega arith))
      (one-le-pow _ 2 (omega arith)))

shl64_room : (b s : ℕ) → s ≤ 64 → shl64 b s + 2 ^ s ≤ 2 ^ 64
shl64_room b s h = omega (
  arith,
  shl64_multiple b s h,
  pow_rest s h,
  mul-le-mul_right (2 ^ s) (mod-lt b (one-le-pow (64 - s) 2 (omega arith))),
)

-- `x | b << s` adds the bits of `b` above those of `x`, and keeps the low 64.
bit_or-shl64 :
    (x b s : ℕ)
    → x < 2 ^ s
    → s ≤ 64
    → (bit_or x (shl64 b s) ≡ x + shl64 b s) × (x + shl64 b s ≡ (x + b * 2 ^ s) % 2 ^ 64)
bit_or-shl64 x b s h k =
    (rw (shl64_multiple b s k) (bit_or_disjoint s x _ h), omega (arith, shl64_room b s k))

shift_seven : (s : ℕ) → 2 ^ (s + 7) ≡ 128 * 2 ^ s
shift_seven s = rw (pow-add s 7) (omega arith)

-- What the loop has to return from index `i` on, over the bytes `bs`.
abbrev result_from : ℕ → ℕ → ℕ → List ℕ → Option ℕ → Option (ℕ × ℕ)
result_from i x s bs none = none
result_from i x s bs (some n) =
    if leb (i + n) 10 then some ((x + groups_value n bs * 2 ^ s) % 2 ^ 64, i + n) else none

one_more : Option ℕ → Option ℕ
one_more none = none
one_more (some n) = some (suc n)

varint_span-cons :
    (b : ℕ) (bs : List ℕ)
    → varint_span (b ∷ bs) ≡ (if ltb b 0x80 then some 1 else one_more (varint_span bs))
unfolding varint_span one_more
varint_span-cons b bs = ground arith

same_count : (i n : ℕ) → i + 1 + n ≡ i + suc n
same_count i n = omega arith

-- A byte and what the bytes behind it make of the loop's new state.
result_from-cons :
    (b i x s : ℕ) (bs : List ℕ) (o : Option ℕ)
    → result_from (i + 1) ((x + b % 128 * 2 ^ s) % 2 ^ 64) (s + 7) bs o
      ≡ result_from i x s (b ∷ bs) (one_more o)
unfolding groups_value one_more
result_from-cons b i x s bs none = refl
result_from-cons b i x s bs (some n) =
    rw (same_count i n, shift_seven s)
      (ap (λ (t : ℕ). if leb (i + suc n) 10 then some (t, i + suc n) else none) (omega arith))

low_group : (b : ℕ) → b < 128 → b ≡ b % 128 + 0
low_group b h = omega arith

result_from_over :
    (i x s : ℕ) (bs : List ℕ) (t : Bool) (o : Option ℕ)
    → 10 ≤ i
    → none ≡ result_from i x s bs (if t then some 1 else one_more o)
unfolding one_more
result_from_over i x s bs true o h = ground arith
result_from_over i x s bs false none h = refl
result_from_over i x s bs false (some n) h = ground arith

result_from_last :
    (b i x s : ℕ) (bs : List ℕ)
    → b < 128
    → i < 10
    → some ((x + b * 2 ^ s) % 2 ^ 64, i + 1) ≡ result_from i x s (b ∷ bs) (some 1)
unfolding groups_value
result_from_last b i x s bs h hi = rw (le→leb (i + 1) 10 (omega arith)) (
    ap {B = Option (ℕ × ℕ)} (λ (t : ℕ). some (t, i + 1))
      (omega (arith, ap (λ (t : ℕ). t * 2 ^ s) (low_group b h))))

next_fits : (x b s : ℕ) → x < 2 ^ s → (x + b % 128 * 2 ^ s) % 2 ^ 64 < 2 ^ (s + 7)
next_fits x b s h =
    omega (arith, shift_seven s, mul-le-mul_right {m = b % 128} {n = 127} (2 ^ s) (omega arith))

decode_loop_lem :
    (bs : List ℕ) (i x s : ℕ)
    → s ≡ 7 * i
    → i ≤ 10
    → x < 2 ^ s
    → decode_loop bs i x s ≡ result_from i x s bs (varint_span bs)
unfolding decode_loop
decode_loop_lem [] i x s hs hi hx = unfold varint_span in refl
decode_loop_lem (b ∷ bs) i x s hs hi hx = elim (Bool-cases (ltb i 10)) [
  | inl go ↦ elim (Bool-cases (ltb b 0x80)) [
    | inl stop ↦
        let (sum, kept) = bit_or-shl64 x b s hx (omega (arith, ltb→lt i 10 go)) in
        rw (varint_span-cons, go, stop, sum, kept)
          (result_from_last b i x s bs (ltb→lt _ _ stop) (ltb→lt _ _ go))
    | inr more ↦
        let (sum, kept) = bit_or-shl64 x (b % 128) s hx (omega (arith, ltb→lt i 10 go)) in
        rw
          (
            varint_span-cons,
            go,
            more,
            ← result_from-cons b i x s bs (varint_span bs),
            bit_and_127 b,
            sum,
            kept,
          )
          (decode_loop_lem bs (i + 1) _ (s + 7) (omega arith) (omega (arith, ltb→lt i 10 go))
            (next_fits x b s hx))
  ]
  | inr over ↦
      rw (varint_span-cons, over) (result_from_over i x s _ (ltb b 0x80) _ (ltb_false→le i 10 over))
]

-- The number that a byte sequence starts with: the span of at most ten bytes up to the first one
-- below 0x80, its groups of seven bits read lowest first, modulo 2 ^ 64.
unfoldable pub number_at : List ℕ → Option (ℕ × ℕ)
number_at bs = result_from 0 0 0 bs (varint_span bs)

-- `DecodeVarint` reads the number that `number_at` describes, on every input: it fails exactly where
-- no byte below 0x80 stands among the first ten, and drops the bits above 64 of a tenth byte.
pub decode_varint-eq-number_at : (bs : List ℕ) → decode_varint bs ≡ number_at bs
unfolding decode_varint number_at
decode_varint-eq-number_at [] = decode_loop_lem [] 0 0 0 refl (omega arith) (omega arith)
decode_varint-eq-number_at (b ∷ bs) = elim (Bool-cases (ltb b 0x80)) [
  | inl stop ↦ rw (stop, varint_span-cons, stop) (unfold groups_value in ground arith)
  | inr more ↦ rw more (decode_loop_lem (b ∷ bs) 0 0 0 refl (omega arith) (omega arith))
]

varint_span-le : (bs : List ℕ) (n : ℕ) → varint_span bs ≡ some n → (1 ≤ n) × (n ≤ length bs)
unfolding varint_span
varint_span-le [] n e = cc
varint_span-le (b ∷ bs) n e = elim (Bool-cases (ltb b 0x80)) [
  | inl stop ↦ ground (arith, stop)
  | inr more ↦ ground (arith, varint_span-le bs (n - 1))
]

-- When `DecodeVarint` succeeds, it consumes between one and ten bytes, all of them of the input, and the number is a uint64.
pub decode_varint_bounds :
    (bs : List ℕ) (r : ℕ × ℕ)
    → decode_varint bs ≡ some r
    → IsU64 r.0 × (1 ≤ r.1) × (r.1 ≤ 10) × (r.1 ≤ length bs)
unfolding number_at
decode_varint_bounds bs r e = ground (arith, decode_varint-eq-number_at bs, varint_span-le bs r.1)
