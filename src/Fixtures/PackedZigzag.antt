-- ===== src/Fixtures/PackedZigzag.antt =====
-- The type `PackedZigzag` of lang/go/integration/fixture.go and its methods in fixture.codec.go:
-- packed repeated zigzag fields.
pub mod Laws
use protoc_gen_codec.Base.{List, [], if◌then◌else◌, ℕ, ◌%◌, ◌++◌, ◌+◌, ◌==◌, ◌^◌, ◌∷◌}
use protoc_gen_codec.Message.{Methods}
use protoc_gen_codec.Message.Kinds.{bad_tag, skip_case}
use protoc_gen_codec.Message.Kinds.Packed.{emit_packed_field, packed_case, size_packed_field}
use protoc_gen_codec.Runtime.Zigzag.{
  zigzag_decode32, zigzag_decode64, zigzag_encode32, zigzag_encode64,
}
use protoc_gen_codec.Wire.Emit.{Writer, ◌⨾◌}
use protoc_gen_codec.Wire.Loop.{Run, Switch, decode_fields}

-- Integers are their bit patterns.
pub record PackedZigzag : Type 0 where
  pub values32 : List ℕ
  pub values64 : List ℕ

unfoldable pub packed_zigzag_size : PackedZigzag → ℕ
packed_zigzag_size m =
    size_packed_field zigzag_encode32 m.values32 + size_packed_field zigzag_encode64 m.values64

unfoldable pub packed_zigzag_marshal_internal : PackedZigzag → Writer
packed_zigzag_marshal_internal m buf =
    (emit_packed_field zigzag_encode32 0x0a m.values32
        ⨾ emit_packed_field zigzag_encode64 0x12 m.values64)
      buf 0

unfoldable pub packed_zigzag_reset : PackedZigzag → PackedZigzag
packed_zigzag_reset m = record m { values32 = []; values64 = [] }

-- `m.Values32 = append(m.Values32, ZigzagDecode32(uint32(v)))`, and `m.Values64`.
abbrev pub add32 : PackedZigzag → ℕ → PackedZigzag
add32 m v = record m { values32 = m.values32 ++ (zigzag_decode32 (v % 2 ^ 32) ∷ []) }

abbrev pub add64 : PackedZigzag → ℕ → PackedZigzag
add64 m v = record m { values64 = m.values64 ++ (zigzag_decode64 v ∷ []) }

unfoldable pub packed_zigzag_switch : List ℕ → List ℕ → ℕ → Switch PackedZigzag
packed_zigzag_switch body slab slab_off num wire_type i m =
    if num == 1
    then packed_case "Values32" 1 body add32 wire_type i m
    else if num == 2
    then packed_case "Values64" 2 body add64 wire_type i m
    else skip_case body wire_type i m

unfoldable pub packed_zigzag_unmarshal_internal :
    List ℕ → List ℕ → ℕ → PackedZigzag → Run PackedZigzag
packed_zigzag_unmarshal_internal body slab slab_off m =
    decode_fields bad_tag body (packed_zigzag_switch body slab slab_off)
      (record m { values32 = []; values64 = [] })

abbrev pub packed_zigzag : Methods PackedZigzag
packed_zigzag = record {
  size = packed_zigzag_size;
  marshal_internal = packed_zigzag_marshal_internal;
  unmarshal_internal = packed_zigzag_unmarshal_internal;
  slab = λ bs. [];
  reset = packed_zigzag_reset;
}
