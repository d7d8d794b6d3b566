-- ===== src/Fixtures/BytesPool.antt =====
-- The type `BytesPool` of lang/go/integration/fixture.go and its methods in fixture.codec.go: one byte slice, whose backing array the decoder reuses; a slice is the list of its bytes.
pub mod Laws
use protoc_gen_codec.Base.{List, [], if◌then◌else◌, ℕ, ◌==◌}
use protoc_gen_codec.Message.{Methods}
use protoc_gen_codec.Message.Kinds.{
  bad_tag, bytes_case, emit_bytes_field, from_body, size_bytes_field, skip_case,
}
use protoc_gen_codec.Wire.Emit.{Writer}
use protoc_gen_codec.Wire.Loop.{Run, Switch, decode_fields}

-- Strings and byte slices are the lists of their bytes.
pub record BytesPool : Type 0 where
  pub payload : List ℕ

unfoldable pub bytes_pool_size : BytesPool → ℕ
bytes_pool_size m = size_bytes_field m.payload

unfoldable pub bytes_pool_marshal_internal : BytesPool → Writer
bytes_pool_marshal_internal m buf = (emit_bytes_field 0x0a m.payload) buf 0

unfoldable pub bytes_pool_reset : BytesPool → BytesPool
bytes_pool_reset m = record m { payload = [] }

unfoldable pub bytes_pool_switch : List ℕ → List ℕ → ℕ → Switch BytesPool
bytes_pool_switch body slab slab_off num wire_type i m =
    if num == 1
    then bytes_case "Payload" 1 body wire_type i m (from_body body) (λ s. record m { payload = s })
    else skip_case body wire_type i m

unfoldable pub bytes_pool_unmarshal_internal : List ℕ → List ℕ → ℕ → BytesPool → Run BytesPool
bytes_pool_unmarshal_internal body slab slab_off m =
    decode_fields bad_tag body (bytes_pool_switch body slab slab_off) (record m { payload = [] })

abbrev pub bytes_pool : Methods BytesPool
bytes_pool = record {
  size = bytes_pool_size;
  marshal_internal = bytes_pool_marshal_internal;
  unmarshal_internal = bytes_pool_unmarshal_internal;
  slab = λ bs. [];
  reset = bytes_pool_reset;
}
