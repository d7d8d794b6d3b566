-- ===== src/Runtime/Zigzag/Laws.antt =====
-- Zigzag maps the integers 0, -1, 1, -2, … to 0, 1, 2, 3, …, and decoding is its inverse.
use protoc_gen_codec.Base.{
  arith, if◌then◌else◌, ltb, ℕ, ◌%◌, ◌*◌, ◌+◌, ◌-◌, ◌/◌, ◌<◌, ◌==◌, ◌^◌, ◌≡◌,
}
use protoc_gen_codec.Base.Bits.{bit_and_one, bit_xor-zero, bit_xor_mask}
use protoc_gen_codec.Runtime.Zigzag.{
  zigzag_decode32, zigzag_decode64, zigzag_encode32, zigzag_encode64,
}

-- The pattern `v` of an integer that is not negative goes to 2 v; that of -(n + 1), to 2 n + 1.
abbrev pub zigzag : ℕ → ℕ → ℕ
zigzag w v = if ltb v (2 ^ (w - 1)) then v * 2 else (2 ^ w - 1 - v) * 2 + 1

abbrev pub unzigzag : ℕ → ℕ → ℕ
unzigzag w z = if z % 2 == 0 then z / 2 else 2 ^ w - 1 - z / 2

pub zigzag_encode64_lem : (v : ℕ) → v < 2 ^ 64 → zigzag_encode64 v ≡ zigzag 64 v
unfolding zigzag_encode64
zigzag_encode64_lem v h =
    ground (arith, bit_xor-zero (v * 2 % 2 ^ 64), bit_xor_mask 64 (v * 2 % 2 ^ 64))

pub zigzag_encode32_lem : (v : ℕ) → v < 2 ^ 32 → zigzag_encode32 v ≡ zigzag 32 v
unfolding zigzag_encode32
zigzag_encode32_lem v h =
    ground (arith, bit_xor-zero (v * 2 % 2 ^ 32), bit_xor_mask 32 (v * 2 % 2 ^ 32))

pub zigzag_decode64_lem : (z : ℕ) → z < 2 ^ 64 → zigzag_decode64 z ≡ unzigzag 64 z
unfolding zigzag_decode64
zigzag_decode64_lem z h =
    ground (arith, bit_and_one z, bit_xor-zero (z / 2), bit_xor_mask 64 (z / 2))

pub zigzag_decode32_lem : (z : ℕ) → z < 2 ^ 32 → zigzag_decode32 z ≡ unzigzag 32 z
unfolding zigzag_decode32
zigzag_decode32_lem z h =
    ground (arith, bit_and_one z, bit_xor-zero (z / 2), bit_xor_mask 32 (z / 2))

-- `ZigzagEncode64` takes the pattern of an int64 to a uint64, and `ZigzagEncode64` and
-- `ZigzagDecode64` are inverse to one another, on all patterns of 64 bits.
pub zigzag_inverse64 :
    (v : ℕ)
    → v < 2 ^ 64
    → (zigzag_encode64 v < 2 ^ 64)
      × (zigzag_decode64 (zigzag_encode64 v) ≡ v)
      × (zigzag_encode64 (zigzag_decode64 v) ≡ v)
zigzag_inverse64 v h = ground (
  arith,
  zigzag_encode64_lem v h,
  zigzag_decode64_lem v h,
  zigzag_decode64_lem (zigzag 64 v),
  zigzag_encode64_lem (unzigzag 64 v),
)

-- `ZigzagEncode32` takes the pattern of an int32 to a uint32, and `ZigzagEncode32` and
-- `ZigzagDecode32` are inverse to one another, on all patterns of 32 bits.
pub zigzag_inverse32 :
    (v : ℕ)
    → v < 2 ^ 32
    → (zigzag_encode32 v < 2 ^ 32)
      × (zigzag_decode32 (zigzag_encode32 v) ≡ v)
      × (zigzag_encode32 (zigzag_decode32 v) ≡ v)
zigzag_inverse32 v h = ground (
  arith,
  zigzag_encode32_lem v h,
  zigzag_decode32_lem v h,
  zigzag_decode32_lem (zigzag 32 v),
  zigzag_encode32_lem (unzigzag 32 v),
)
