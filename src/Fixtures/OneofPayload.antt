-- ===== src/Fixtures/OneofPayload.antt =====
-- The type `OneofPayload` of lang/go/integration/fixture.go and its methods in fixture.codec.go: a
-- oneof of five branches, with a discriminator that is not on the wire itself.
pub mod Laws
pub mod Kept
use protoc_gen_codec.Base.{List, [], if◌then◌else◌, ℕ, ◌+◌, ◌==◌}
use protoc_gen_codec.Fixtures.Inner.{Inner, inner, inner_reset}
use protoc_gen_codec.Message.{Methods}
use protoc_gen_codec.Message.Kinds.{
  bad_tag, bytes_case, emit_bytes_field, emit_element, fixed64_case, from_body, from_slab,
  size_bytes_field, size_element, skip_case, varint_case,
}
use protoc_gen_codec.Message.Kinds.Nested.{emit_message, message_case, size_message}
use protoc_gen_codec.Runtime.Varint.{size_varint}
use protoc_gen_codec.Wire.Emit.{Emit, Writer, into, nothing, push, put_fixed, put_varint, ◌⨾◌}
use protoc_gen_codec.Wire.Loop.{Run, Switch, and_then, decode_fields, done, failed}

-- Strings and byte slices are the lists of their bytes. Integers are their bit patterns.
pub record OneofPayload : Type 0 where
  pub label : List ℕ
  pub kind : ℕ
  pub text : List ℕ
  pub number : ℕ
  pub nested : Inner
  pub blob : List ℕ
  pub amount : ℕ

-- `switch m.Kind { … }`: a branch is sent whatever its value.
unfoldable pub oneof_size : OneofPayload → ℕ
oneof_size m =
    if m.kind == 10
    then size_element m.text
    else if m.kind == 11
    then 1 + size_varint m.number
    else if m.kind == 12
    then size_message inner m.nested
    else if m.kind == 13
    then size_element m.blob
    else if m.kind == 14
    then 9
    else 0

unfoldable pub oneof_emit : OneofPayload → Emit
oneof_emit m =
    if m.kind == 10
    then emit_element 0x52 m.text
    else if m.kind == 11
    then push 0x58 ⨾ into (put_varint m.number)
    else if m.kind == 12
    then emit_message inner 0x62 m.nested
    else if m.kind == 13
    then emit_element 0x6a m.blob
    else if m.kind == 14
    then push 0x71 ⨾ into (put_fixed 8 m.amount)
    else nothing

unfoldable pub oneof_payload_size : OneofPayload → ℕ
oneof_payload_size m = size_bytes_field m.label + oneof_size m

unfoldable pub oneof_payload_marshal_internal : OneofPayload → Writer
oneof_payload_marshal_internal m buf = (emit_bytes_field 0x0a m.label ⨾ oneof_emit m) buf 0

unfoldable pub oneof_payload_reset : OneofPayload → OneofPayload
oneof_payload_reset m = record {
  label = [];
  kind = 0;
  text = [];
  number = 0;
  nested = inner_reset m.nested;
  blob = [];
  amount = 0;
}

-- The nested message is decoded in place, also where its decoding fails; the discriminator is set
-- only where it does not.
unfoldable pub nested_case : List ℕ → List ℕ → ℕ → ℕ → ℕ → OneofPayload → Run OneofPayload
nested_case body slab slab_off wire_type i m =
    and_then
      (message_case inner "Nested" 12 body slab slab_off wire_type i m m.nested
        (λ x. record m { nested = x }))
      failed (λ m' i'. done (record m' { kind = 12 }) i')

unfoldable pub oneof_payload_switch : List ℕ → List ℕ → ℕ → Switch OneofPayload
oneof_payload_switch body slab slab_off num wire_type i m =
    if num == 1
    then bytes_case "Label" 1 body wire_type i m (from_slab slab slab_off)
        (λ s. record m { label = s })
    else if num == 10
    then bytes_case "Text" 10 body wire_type i m (from_slab slab slab_off)
        (λ s. record m { text = s; kind = 10 })
    else if num == 11
    then varint_case "Number" 11 body wire_type i m (λ v. record m { number = v; kind = 11 })
    else if num == 12
    then nested_case body slab slab_off wire_type i m
    else if num == 13
    then bytes_case "Blob" 13 body wire_type i m (from_body body)
        (λ s. record m { blob = s; kind = 13 })
    else if num == 14
    then fixed64_case "Amount" 14 body wire_type i m (λ v. record m { amount = v; kind = 14 })
    else skip_case body wire_type i m

-- The receiver as the loop finds it. The discriminator is not among the fields that are reset.
unfoldable pub oneof_payload_start : OneofPayload → OneofPayload
oneof_payload_start m = record m {
  label = [];
  text = [];
  number = 0;
  nested = inner_reset m.nested;
  blob = [];
  amount = 0;
}

unfoldable pub oneof_payload_unmarshal_internal :
    List ℕ → List ℕ → ℕ → OneofPayload → Run OneofPayload
oneof_payload_unmarshal_internal body slab slab_off m =
    decode_fields bad_tag body (oneof_payload_switch body slab slab_off) (oneof_payload_start m)

abbrev pub oneof_payload : Methods OneofPayload
oneof_payload = record {
  size = oneof_payload_size;
  marshal_internal = oneof_payload_marshal_internal;
  unmarshal_internal = oneof_payload_unmarshal_internal;
  slab = λ bs. bs;
  reset = oneof_payload_reset;
}
