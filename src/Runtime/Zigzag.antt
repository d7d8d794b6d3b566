-- ===== src/Runtime/Zigzag.antt =====
-- The zigzag functions of lang/go/codec/wire.go. An intN is its bit pattern, a number below 2 ^ N.
pub mod Laws
use protoc_gen_codec.Base.{ℕ, ◌+◌, ◌-◌, ◌*◌, ◌/◌, ◌%◌, ◌^◌, bit_and, bit_xor, ltb, if◌then◌else◌}

-- `v << 1`, `v >> 31` or `v >> 63` (arithmetic), and `-v`, on `w` bits.
abbrev pub shl_one : ℕ → ℕ → ℕ
shl_one w v = v * 2 % 2 ^ w

abbrev pub sign_fill : ℕ → ℕ → ℕ
sign_fill w v = if ltb v (2 ^ (w - 1)) then 0 else 2 ^ w - 1

abbrev pub negate : ℕ → ℕ → ℕ
negate w v = (2 ^ w - v) % 2 ^ w

unfoldable pub zigzag_encode32 : ℕ → ℕ
zigzag_encode32 v = bit_xor (shl_one 32 v) (sign_fill 32 v)

unfoldable pub zigzag_encode64 : ℕ → ℕ
zigzag_encode64 v = bit_xor (shl_one 64 v) (sign_fill 64 v)

-- `v >> 1` on an unsigned `v` is below 2 ^ (N - 1), so `int32` and `int64` keep its pattern.
unfoldable pub zigzag_decode32 : ℕ → ℕ
zigzag_decode32 v = bit_xor (v / 2) (negate 32 (bit_and v 1))

unfoldable pub zigzag_decode64 : ℕ → ℕ
zigzag_decode64 v = bit_xor (v / 2) (negate 64 (bit_and v 1))
