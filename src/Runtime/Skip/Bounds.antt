-- ===== src/Runtime/Skip/Bounds.antt =====
-- `SkipField` stays within its input, and always moves on.
use protoc_gen_codec.Base.{◌≢◌, ℕ, ◌≤◌, ◌≡◌, List, length, arith}
use protoc_gen_codec.Runtime.Errors.{ok, fault}
use protoc_gen_codec.Runtime.Varint.Decode.{decode_varint_bounds}
use protoc_gen_codec.Runtime.Skip.{skip_varint, skip_fixed, skip_bytes, skip_field}

skip_varint_bounds : (bs : List ℕ) (n : ℕ) → skip_varint bs ≡ ok n → (1 ≤ n) × (n ≤ length bs)
unfolding skip_varint
skip_varint_bounds bs n e = grind (arith, decode_varint_bounds)

skip_bytes_bounds : (bs : List ℕ) (n : ℕ) → skip_bytes bs ≡ ok n → (1 ≤ n) × (n ≤ length bs)
unfolding skip_bytes
skip_bytes_bounds bs n e = grind (arith, decode_varint_bounds)

-- A field that `SkipField` skips takes at least one byte, and all its bytes are there.
pub skip_field_bounds :
    (bs : List ℕ) (wire_type n : ℕ) → skip_field bs wire_type ≡ ok n → (1 ≤ n) × (n ≤ length bs)
unfolding skip_field skip_fixed
skip_field_bounds bs wire_type n e = ground (arith, skip_varint_bounds bs n, skip_bytes_bounds bs n)

-- No branch of `SkipField` is a panic, as the callers need to know.
pub skip_field-ne-fault : (bs : List ℕ) (wire_type : ℕ) → skip_field bs wire_type ≢ fault
unfolding skip_field skip_varint skip_bytes skip_fixed
skip_field-ne-fault bs wire_type e = ground arith
