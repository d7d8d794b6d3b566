-- ===== src/Fixtures/CrossContainer.antt =====
-- The type `CrossContainer` of lang/go/integration/cross.go and its methods in cross.codec.go: messages of another package, by pointer and by value.
pub mod Laws
use protoc_gen_codec.Base.{
  List, Option, [], bit_and, bit_or, if◌then◌else◌, length, none, some, ℕ, ◌++◌, ◌+◌, ◌==◌, ◌^◌,
  ◌∷◌,
}
use protoc_gen_codec.Fixtures.External.{External, external, external_reset, zero_external}
use protoc_gen_codec.Message.{Methods}
use protoc_gen_codec.Message.Kinds.{
  bad_tag, bytes_case, emit_bytes_field, from_slab, size_bytes_field, skip_case,
}
use protoc_gen_codec.Message.Kinds.Nested.{
  emit_pointer_field, emit_pointers_field, emit_values_field, message_case, or_new,
  size_pointer_field, size_pointers_field, size_values_field,
}
use protoc_gen_codec.Wire.Emit.{Writer, ◌⨾◌}
use protoc_gen_codec.Wire.Loop.{Run, Switch, and_then, decode_fields, done, failed}

-- A string is the list of its bytes. Two pointers do not point to the same message.
pub record CrossContainer : Type 0 where
  pub name : List ℕ
  pub item : Option External
  pub items : List External
  pub ptr_items : List (Option External)

unfoldable pub cross_container_size : CrossContainer → ℕ
cross_container_size m =
    size_bytes_field m.name
    + size_pointer_field external m.item
    + size_values_field external m.items
    + size_pointers_field external m.ptr_items

unfoldable pub cross_container_marshal_internal : CrossContainer → Writer
cross_container_marshal_internal m buf =
    (emit_bytes_field 0x0a m.name
        ⨾ emit_pointer_field external 0x12 m.item
        ⨾ emit_values_field external 0x1a m.items
        ⨾ emit_pointers_field external 0x22 m.ptr_items)
      buf 0

unfoldable pub cross_container_reset : CrossContainer → CrossContainer
cross_container_reset m = record m {
  name = [];
  item = elim m.item [ none ↦ none | some x ↦ some (external_reset x) ];
  items = [];
  ptr_items = [];
}

-- The receiver within the loop, and the local variable `seenOptional`.
pub record CrossContainerRun : Type 0 where
  pub value : CrossContainer
  pub seen_optional : ℕ

-- A slot gives what the backing array of the receiver's slice holds behind its elements, which the
-- decoder takes into use again; `none` where it holds nil or ends, or the slice was nil.
unfoldable pub cross_container_switch :
    (ℕ → External) → (ℕ → Option External) → List ℕ → List ℕ → ℕ → Switch CrossContainerRun
cross_container_switch items_slot ptr_items_slot body slab slab_off num wire_type i s =
    let m = s.value in
    if num == 1
    then bytes_case "Name" 1 body wire_type i s (from_slab slab slab_off)
        (λ x. record s { value = record m { name = x } })
    else if num == 2
    then message_case external "Item" 2 body slab slab_off wire_type i s
        (or_new zero_external m.item)
        (λ x. record s {
          value = record m { item = some x };
          seen_optional = bit_or s.seen_optional (2 ^ 2);
        })
    else if num == 3
    then message_case external "Items" 3 body slab slab_off wire_type i s
        (items_slot (length m.items))
        (λ x. record s { value = record m { items = m.items ++ (x ∷ []) } })
    else if num == 4
    then message_case external "PtrItems" 4 body slab slab_off wire_type i s
        (or_new zero_external (ptr_items_slot (length m.ptr_items)))
        (λ x. record s { value = record m { ptr_items = m.ptr_items ++ (some x ∷ []) } })
    else skip_case body wire_type i s

-- The receiver after the loop: a pointer field that was not seen is nil.
unfoldable pub cross_container_finish : CrossContainerRun → CrossContainer
cross_container_finish s =
    let m = s.value in
    record m { item = if bit_and s.seen_optional (2 ^ 2) == 0 then none else m.item }

abbrev pub cross_container_start : CrossContainer → CrossContainerRun
cross_container_start m = record {
  value = record m { name = []; items = []; ptr_items = [] };
  seen_optional = 0;
}

-- An error returns from within the loop.
abbrev pub cross_container_return : Run CrossContainerRun → Run CrossContainer
cross_container_return run =
    and_then run (λ e s. failed e s.value) (λ s i. done (cross_container_finish s) i)

unfoldable pub cross_container_unmarshal_internal :
    (ℕ → External)
    → (ℕ → Option External)
    → List ℕ
    → List ℕ
    → ℕ
    → CrossContainer
    → Run CrossContainer
cross_container_unmarshal_internal items_slot ptr_items_slot body slab slab_off m =
    cross_container_return (
      decode_fields bad_tag body
        (cross_container_switch items_slot ptr_items_slot body slab slab_off)
        (cross_container_start m))

abbrev pub cross_container : (ℕ → External) → (ℕ → Option External) → Methods CrossContainer
cross_container items_slot ptr_items_slot = record {
  size = cross_container_size;
  marshal_internal = cross_container_marshal_internal;
  unmarshal_internal = cross_container_unmarshal_internal items_slot ptr_items_slot;
  slab = λ bs. bs;
  reset = cross_container_reset;
}
