-- ===== src/Fixtures/ValueContainer.antt =====
-- The type `ValueContainer` of lang/go/integration/fixture.go and its methods in fixture.codec.go: a nested message held by value, and a slice of them.
pub mod Laws
use protoc_gen_codec.Base.{List, [], if◌then◌else◌, length, ℕ, ◌++◌, ◌+◌, ◌==◌, ◌∷◌}
use protoc_gen_codec.Fixtures.Inner.{Inner, inner, inner_reset}
use protoc_gen_codec.Message.{Methods}
use protoc_gen_codec.Message.Kinds.{
  bad_tag, bytes_case, emit_bytes_field, from_slab, size_bytes_field, skip_case,
}
use protoc_gen_codec.Message.Kinds.Nested.{
  emit_value_field, emit_values_field, message_case, size_value_field, size_values_field,
}
use protoc_gen_codec.Wire.Emit.{Writer, ◌⨾◌}
use protoc_gen_codec.Wire.Loop.{Run, Switch, decode_fields}

-- A string is the list of its bytes. Two pointers do not point to the same message.
pub record ValueContainer : Type 0 where
  pub name : List ℕ
  pub inner : Inner
  pub items : List Inner

unfoldable pub value_container_size : ValueContainer → ℕ
value_container_size m =
    size_bytes_field m.name + size_value_field inner m.inner + size_values_field inner m.items

unfoldable pub value_container_marshal_internal : ValueContainer → Writer
value_container_marshal_internal m buf =
    (emit_bytes_field 0x0a m.name
        ⨾ emit_value_field inner 0x12 m.inner
        ⨾ emit_values_field inner 0x1a m.items)
      buf 0

unfoldable pub value_container_reset : ValueContainer → ValueContainer
value_container_reset m = record m { name = []; inner = inner_reset m.inner; items = [] }

-- A slot gives what the backing array of the receiver's slice holds behind its elements, which the
-- decoder takes into use again, or a new message where it ends.
unfoldable pub value_container_switch : (ℕ → Inner) → List ℕ → List ℕ → ℕ → Switch ValueContainer
value_container_switch items_slot body slab slab_off num wire_type i m =
    if num == 1
    then bytes_case "Name" 1 body wire_type i m (from_slab slab slab_off)
        (λ x. record m { name = x })
    else if num == 2
    then message_case inner "Inner" 2 body slab slab_off wire_type i m m.inner
        (λ x. record m { inner = x })
    else if num == 3
    then message_case inner "Items" 3 body slab slab_off wire_type i m (items_slot (length m.items))
        (λ x. record m { items = m.items ++ (x ∷ []) })
    else skip_case body wire_type i m

unfoldable pub value_container_unmarshal_internal :
    (ℕ → Inner) → List ℕ → List ℕ → ℕ → ValueContainer → Run ValueContainer
value_container_unmarshal_internal items_slot body slab slab_off m =
    decode_fields bad_tag body (value_container_switch items_slot body slab slab_off)
      (record m { name = []; inner = inner_reset m.inner; items = [] })

abbrev pub value_container : (ℕ → Inner) → Methods ValueContainer
value_container items_slot = record {
  size = value_container_size;
  marshal_internal = value_container_marshal_internal;
  unmarshal_internal = value_container_unmarshal_internal items_slot;
  slab = λ bs. bs;
  reset = value_container_reset;
}
