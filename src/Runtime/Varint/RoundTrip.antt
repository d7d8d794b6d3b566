-- ===== src/Runtime/Varint/RoundTrip.antt =====
-- Reading back what was written.
use protoc_gen_codec.Base.{ℕ, zero, suc, ◌/◌, ◌^◌, ◌<◌, ◌≡◌}
use protoc_gen_codec.Base.{List, ◌++◌, arith, length, some}
use protoc_gen_codec.Runtime.Varint.{IsU64, decode_varint}
use protoc_gen_codec.Runtime.Varint.Groups.{groups, varint, length-varint}
use protoc_gen_codec.Runtime.Varint.Decode.{
  varint_span, groups_value, number_at, decode_varint-eq-number_at,
}

varint_span-groups :
    (k x : ℕ) (rest : List ℕ)
    → x < 128 ^ suc k
    → varint_span (groups k x ++ rest) ≡ some (length (groups k x))
unfolding varint_span groups
varint_span-groups zero x rest h = ground arith
varint_span-groups (suc k) x rest h = ground (arith, varint_span-groups k (x / 128) rest)

groups_value-groups :
    (k x : ℕ) (rest : List ℕ)
    → x < 128 ^ suc k
    → groups_value (length (groups k x)) (groups k x ++ rest) ≡ x
unfolding groups_value groups
groups_value-groups zero x rest h = ground arith
groups_value-groups (suc k) x rest h = ground (arith, groups_value-groups k (x / 128) rest)

-- `DecodeVarint` reads the varint of a uint64 back, with the number of its bytes, whatever follows it.
pub decode_varint-varint :
    (x : ℕ) (rest : List ℕ)
    → IsU64 x
    → decode_varint (varint x ++ rest) ≡ some (x, length (varint x))
unfolding varint number_at
decode_varint-varint x rest h =
    rw
      (
        decode_varint-eq-number_at,
        varint_span-groups 9 x rest (omega arith),
        groups_value-groups 9 x rest (omega arith),
      )
      (ground (arith, length-varint x))
