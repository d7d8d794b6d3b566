-- ===== src/Runtime/Varint.antt =====
-- The varint functions of lang/go/codec/wire.go. A byte slice is a list of numbers below 256, a
-- uint64 a number below 2 ^ 64; `x >> 7` is `x / 128` and `byte(x)` is `x % 256`.
pub mod Groups
pub mod Size
pub mod Encode
pub mod Decode
pub mod RoundTrip
use protoc_gen_codec.Base.{ℕ, zero, suc, ◌+◌, ◌-◌, ◌*◌, ◌/◌, ◌%◌, ◌^◌, ◌≤◌, ◌<◌, bit_and, bit_or}
use protoc_gen_codec.Base.{
  List, [], ◌∷◌, Option, none, some, arith, ltb, ◌==◌, if◌then◌else◌, lt_wf,
}
use protoc_gen_codec.Runtime.Errors.{Res, ok, fault, ◌>>=◌}
use mathlib.Core.Bool.{◌&&◌}
use mathlib.Core.Logic.{dite}
use mathlib.Core.WellFounded.{Acc}
use native.Mathlib.Decide.{dec_le}

abbrev pub IsByte : ℕ → Type 0
IsByte b = b < 256

abbrev pub IsU64 : ℕ → Type 0
IsU64 x = x < 2 ^ 64

abbrev pub max_varint_len : ℕ
max_varint_len = 10

-- `bits.Len64` of math/bits: the number of binary digits, here of a number below 2 ^ k.
unfoldable pub bit_len : ℕ → ℕ → ℕ
bit_len zero x = 0
bit_len (suc k) x = if x == 0 then 0 else suc (bit_len k (x / 2))

abbrev pub len64 : ℕ → ℕ
len64 x = bit_len 64 x

unfoldable pub size_varint : ℕ → ℕ
size_varint x = (len64 (bit_or x 1) + 6) / 7

unfoldable pub sov : ℕ → ℕ
sov x = size_varint x

-- `buf[i] = b`, which panics out of range.
unfoldable pub write_at : List ℕ → ℕ → ℕ → Res (List ℕ)
write_at [] i b = fault
write_at (c ∷ buf) zero b = ok (b ∷ buf)
write_at (c ∷ buf) (suc i) b = write_at buf i b >>= λ buf'. ok (c ∷ buf')

pub shift_shrinks : (x : ℕ) → 128 ≤ x → x / 128 < x
shift_shrinks x h = omega arith

-- The loop goes on while `x >= 0x80`.
unfoldable pub encode_loop : List ℕ → (x : ℕ) → Acc ◌<◌ x → ℕ → Res (List ℕ × ℕ)
encode_loop buf x (Acc.intro _ smaller) i =
    dite (dec_le 0x80 x)
      (λ more. write_at buf i (bit_or (x % 256) 0x80) >>= λ buf'.
        encode_loop buf' (x / 128) (smaller _ (shift_shrinks x more)) (i + 1))
      (λ _. write_at buf i (x % 256) >>= λ buf'. ok (buf', i + 1))

-- The slice after the call, and the number of bytes written.
unfoldable pub encode_varint : List ℕ → ℕ → Res (List ℕ × ℕ)
encode_varint buf x = encode_loop buf x (lt_wf.apply x) 0

-- `x << s` on a uint64.
abbrev pub shl64 : ℕ → ℕ → ℕ
shl64 x s = x * 2 ^ s % 2 ^ 64

-- The loop from index `i` on, over `data[i:]`; `none` is the result (0, -1).
unfoldable pub decode_loop : List ℕ → ℕ → ℕ → ℕ → Option (ℕ × ℕ)
decode_loop [] i x s = none
decode_loop (b ∷ bs) i x s =
    let more = decode_loop bs (i + 1) (bit_or x (shl64 (bit_and b 0x7f) s)) (s + 7) in
    if ltb i max_varint_len
    then if ltb b 0x80 then some (bit_or x (shl64 b s), i + 1) else more
    else none

unfoldable pub decode_varint : List ℕ → Option (ℕ × ℕ)
decode_varint [] = decode_loop [] 0 0 0
decode_varint (b ∷ bs) =
    let slow = decode_loop (b ∷ bs) 0 0 0 in if ltb b 0x80 then some (b, 1) else slow
