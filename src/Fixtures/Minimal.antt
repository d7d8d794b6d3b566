-- ===== src/Fixtures/Minimal.antt =====
-- The type `Minimal` of lang/go/integration/fixture.go and its methods in fixture.codec.go: the smallest message, with a single string field.
pub mod Laws
use protoc_gen_codec.Base.{List, [], if◌then◌else◌, ℕ, ◌==◌}
use protoc_gen_codec.Message.{Methods}
use protoc_gen_codec.Message.Kinds.{
  bad_tag, bytes_case, emit_bytes_field, from_slab, size_bytes_field, skip_case,
}
use protoc_gen_codec.Wire.Emit.{Writer}
use protoc_gen_codec.Wire.Loop.{Run, Switch, decode_fields}

-- Strings and byte slices are the lists of their bytes.
pub record Minimal : Type 0 where
  pub id : List ℕ

unfoldable pub minimal_size : Minimal → ℕ
minimal_size m = size_bytes_field m.id

unfoldable pub minimal_marshal_internal : Minimal → Writer
minimal_marshal_internal m buf = (emit_bytes_field 0x0a m.id) buf 0

unfoldable pub minimal_reset : Minimal → Minimal
minimal_reset m = record m { id = [] }

unfoldable pub minimal_switch : List ℕ → List ℕ → ℕ → Switch Minimal
minimal_switch body slab slab_off num wire_type i m =
    if num == 1
    then bytes_case "ID" 1 body wire_type i m (from_slab slab slab_off) (λ s. record m { id = s })
    else skip_case body wire_type i m

unfoldable pub minimal_unmarshal_internal : List ℕ → List ℕ → ℕ → Minimal → Run Minimal
minimal_unmarshal_internal body slab slab_off m =
    decode_fields bad_tag body (minimal_switch body slab slab_off) (record m { id = [] })

abbrev pub minimal : Methods Minimal
minimal = record {
  size = minimal_size;
  marshal_internal = minimal_marshal_internal;
  unmarshal_internal = minimal_unmarshal_internal;
  slab = λ bs. bs;
  reset = minimal_reset;
}
