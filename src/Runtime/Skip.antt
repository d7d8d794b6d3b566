-- ===== src/Runtime/Skip.antt =====
-- `SkipField` of lang/go/codec/wire.go.
pub mod Bounds
use protoc_gen_codec.Base.{
  ℕ, zero, suc, ◌+◌, ◌-◌, ◌<◌, List, Option, none, some, length, ltb, if◌then◌else◌, ◌==◌,
}
use protoc_gen_codec.Runtime.Errors.{
  Res, ok, err, sentinel, with_wire_type, invalid_varint, buffer_too_short, invalid_wire_type,
}
use protoc_gen_codec.Runtime.Varint.{decode_varint}

unfoldable pub skip_varint : List ℕ → Res ℕ
skip_varint bs = elim (decode_varint bs) [
  | none ↦ err (sentinel invalid_varint)
  | some (x, n) ↦ ok n
]

unfoldable pub skip_fixed : ℕ → List ℕ → Res ℕ
skip_fixed w bs = if ltb (length bs) w then err (sentinel buffer_too_short) else ok w

-- `len(data) - n` is not negative, since `DecodeVarint` reads no more than there is.
unfoldable pub skip_bytes : List ℕ → Res ℕ
skip_bytes bs = elim (decode_varint bs) [
  | none ↦ err (sentinel invalid_varint)
  | some (l, n) ↦ if ltb (length bs - n) l then err (sentinel buffer_too_short) else ok (n + l)
]

-- The cases of the switch on the wire type.
unfoldable pub skip_field : List ℕ → ℕ → Res ℕ
skip_field bs wire_type =
    if wire_type == 0
    then skip_varint bs
    else if wire_type == 1
    then skip_fixed 8 bs
    else if wire_type == 2
    then skip_bytes bs
    else if wire_type == 5
    then skip_fixed 4 bs
    else err (with_wire_type wire_type (sentinel invalid_wire_type))
