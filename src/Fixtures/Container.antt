-- ===== src/Fixtures/Container.antt =====
-- The type `Container` of lang/go/integration/fixture.go and its methods in fixture.codec.go: a pointer to a nested message, and a slice of pointers.
pub mod Laws
pub mod Room
use protoc_gen_codec.Base.{
  List, Option, [], bit_and, bit_or, if◌then◌else◌, length, none, some, ℕ, ◌++◌, ◌+◌, ◌==◌, ◌^◌,
  ◌∷◌,
}
use protoc_gen_codec.Fixtures.Inner.{Inner, inner, inner_reset, zero_inner}
use protoc_gen_codec.Message.{Methods}
use protoc_gen_codec.Message.Kinds.{
  bad_tag, bytes_case, emit_bytes_field, from_slab, size_bytes_field, skip_case,
}
use protoc_gen_codec.Message.Kinds.Nested.{
  emit_pointer_field, emit_pointers_field, message_case, or_new, size_pointer_field,
  size_pointers_field,
}
use protoc_gen_codec.Wire.Emit.{Writer, ◌⨾◌}
use protoc_gen_codec.Wire.Loop.{Run, Switch, and_then, decode_fields, done, failed}

-- A string is the list of its bytes. Two pointers do not point to the same message.
pub record Container : Type 0 where
  pub name : List ℕ
  pub inner : Option Inner
  pub children : List (Option Inner)

unfoldable pub container_size : Container → ℕ
container_size m =
    size_bytes_field m.name
    + size_pointer_field inner m.inner
    + size_pointers_field inner m.children

unfoldable pub container_marshal_internal : Container → Writer
container_marshal_internal m buf =
    (emit_bytes_field 0x0a m.name
        ⨾ emit_pointer_field inner 0x12 m.inner
        ⨾ emit_pointers_field inner 0x1a m.children)
      buf 0

unfoldable pub container_reset : Container → Container
container_reset m = record m {
  name = [];
  inner = elim m.inner [ none ↦ none | some x ↦ some (inner_reset x) ];
  children = [];
}

-- The receiver within the loop, and the local variable `seenOptional`.
pub record ContainerRun : Type 0 where
  pub value : Container
  pub seen_optional : ℕ

-- A slot gives what the backing array of the receiver's slice holds behind its elements, which the
-- decoder takes into use again; `none` where it holds nil or ends, or the slice was nil.
unfoldable pub container_switch : (ℕ → Option Inner) → List ℕ → List ℕ → ℕ → Switch ContainerRun
container_switch children_slot body slab slab_off num wire_type i s =
    let m = s.value in
    if num == 1
    then bytes_case "Name" 1 body wire_type i s (from_slab slab slab_off)
        (λ x. record s { value = record m { name = x } })
    else if num == 2
    then message_case inner "Inner" 2 body slab slab_off wire_type i s (or_new zero_inner m.inner)
        (λ x. record s {
          value = record m { inner = some x };
          seen_optional = bit_or s.seen_optional (2 ^ 2);
        })
    else if num == 3
    then message_case inner "Children" 3 body slab slab_off wire_type i s
        (or_new zero_inner (children_slot (length m.children)))
        (λ x. record s { value = record m { children = m.children ++ (some x ∷ []) } })
    else skip_case body wire_type i s

-- The receiver after the loop: a pointer field that was not seen is nil.
unfoldable pub container_finish : ContainerRun → Container
container_finish s =
    let m = s.value in
    record m { inner = if bit_and s.seen_optional (2 ^ 2) == 0 then none else m.inner }

abbrev pub container_start : Container → ContainerRun
container_start m = record { value = record m { name = []; children = [] }; seen_optional = 0 }

-- An error returns from within the loop.
abbrev pub container_return : Run ContainerRun → Run Container
container_return run = and_then run (λ e s. failed e s.value) (λ s i. done (container_finish s) i)

unfoldable pub container_unmarshal_internal :
    (ℕ → Option Inner) → List ℕ → List ℕ → ℕ → Container → Run Container
container_unmarshal_internal children_slot body slab slab_off m = container_return (
    decode_fields bad_tag body (container_switch children_slot body slab slab_off)
      (container_start m))

abbrev pub container : (ℕ → Option Inner) → Methods Container
container children_slot = record {
  size = container_size;
  marshal_internal = container_marshal_internal;
  unmarshal_internal = container_unmarshal_internal children_slot;
  slab = λ bs. bs;
  reset = container_reset;
}
