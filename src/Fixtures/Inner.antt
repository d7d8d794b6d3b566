-- ===== src/Fixtures/Inner.antt =====
-- The type `Inner` of lang/go/integration/fixture.go and its methods in fixture.codec.go: a nested message without further messages.
pub mod Laws
use protoc_gen_codec.Base.{List, [], if◌then◌else◌, ℕ, ◌+◌, ◌==◌}
use protoc_gen_codec.Message.{Methods}
use protoc_gen_codec.Message.Kinds.{
  bad_tag, bytes_case, emit_bytes_field, emit_varint_field, from_slab, size_bytes_field,
  size_varint_field, skip_case, varint_case,
}
use protoc_gen_codec.Wire.Emit.{Writer, ◌⨾◌}
use protoc_gen_codec.Wire.Loop.{Run, Switch, decode_fields}

-- Strings and byte slices are the lists of their bytes. Integers are their bit patterns.
pub record Inner : Type 0 where
  pub label : List ℕ
  pub count : ℕ

-- `Inner{}`, and what `new(Inner)` points to.
abbrev pub zero_inner : Inner
zero_inner = record { label = []; count = 0 }

unfoldable pub inner_size : Inner → ℕ
inner_size m = size_bytes_field m.label + size_varint_field m.count

unfoldable pub inner_marshal_internal : Inner → Writer
inner_marshal_internal m buf =
    (emit_bytes_field 0x0a m.label ⨾ emit_varint_field 0x10 m.count) buf 0

unfoldable pub inner_reset : Inner → Inner
inner_reset m = record m { label = []; count = 0 }

unfoldable pub inner_switch : List ℕ → List ℕ → ℕ → Switch Inner
inner_switch body slab slab_off num wire_type i m =
    if num == 1
    then bytes_case "Label" 1 body wire_type i m (from_slab slab slab_off)
        (λ s. record m { label = s })
    else if num == 2
    then varint_case "Count" 2 body wire_type i m (λ v. record m { count = v })
    else skip_case body wire_type i m

unfoldable pub inner_unmarshal_internal : List ℕ → List ℕ → ℕ → Inner → Run Inner
inner_unmarshal_internal body slab slab_off m =
    decode_fields bad_tag body (inner_switch body slab slab_off)
      (record m { label = []; count = 0 })

abbrev pub inner : Methods Inner
inner = record {
  size = inner_size;
  marshal_internal = inner_marshal_internal;
  unmarshal_internal = inner_unmarshal_internal;
  slab = λ bs. bs;
  reset = inner_reset;
}
