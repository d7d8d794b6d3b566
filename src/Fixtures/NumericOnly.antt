-- ===== src/Fixtures/NumericOnly.antt =====
-- The type `NumericOnly` of lang/go/integration/fixture.go and its methods in fixture.codec.go:
-- every numeric kind, and optional fields.
pub mod Laws
use protoc_gen_codec.Base.{
  Bool, List, Option, [], bit_and, bit_or, false, if◌then◌else◌, none, not, some, ℕ, ◌%◌, ◌+◌, ◌==◌,
  ◌^◌,
}
use protoc_gen_codec.Message.{Methods}
use protoc_gen_codec.Message.Kinds.{
  bad_tag, emit_bool_field, emit_fixed64_field, emit_varint_field, fixed64_case, size_bool_field,
  size_fixed64_field, size_varint_field, skip_case, varint_case,
}
use protoc_gen_codec.Message.Kinds.Numeric.{
  emit_optional_bool_field, emit_optional_fixed64_field, emit_optional_int32_field,
  emit_zigzag32_field, emit_zigzag64_field, size_optional_bool_field, size_optional_fixed64_field,
  size_optional_int32_field, size_zigzag32_field, size_zigzag64_field,
}
use protoc_gen_codec.Runtime.Zigzag.{zigzag_decode32, zigzag_decode64}
use protoc_gen_codec.Wire.Emit.{Writer, ◌⨾◌}
use protoc_gen_codec.Wire.Loop.{Run, Switch, and_then, decode_fields, done, failed}

-- Integers are their bit patterns; a pointer field is an Option. Two messages do not share what
-- their pointers point to.
pub record NumericOnly : Type 0 where
  pub a : ℕ
  pub b : ℕ
  pub c : ℕ
  pub d : ℕ
  pub e : Bool
  pub f : ℕ
  pub g : ℕ
  pub h : Option ℕ
  pub i : Option Bool
  pub j : Option ℕ

unfoldable pub numeric_only_size : NumericOnly → ℕ
numeric_only_size m =
    size_varint_field m.a
    + size_varint_field m.b
    + size_varint_field m.c
    + size_fixed64_field m.d
    + size_bool_field m.e
    + size_zigzag32_field m.f
    + size_zigzag64_field m.g
    + size_optional_int32_field m.h
    + size_optional_bool_field m.i
    + size_optional_fixed64_field m.j

unfoldable pub numeric_only_marshal_internal : NumericOnly → Writer
numeric_only_marshal_internal m buf =
    (emit_varint_field 0x08 m.a
        ⨾ emit_varint_field 0x10 m.b
        ⨾ emit_varint_field 0x18 m.c
        ⨾ emit_fixed64_field 0x21 m.d
        ⨾ emit_bool_field 0x28 m.e
        ⨾ emit_zigzag32_field 0x30 m.f
        ⨾ emit_zigzag64_field 0x38 m.g
        ⨾ emit_optional_int32_field 0x40 m.h
        ⨾ emit_optional_bool_field 0x48 m.i
        ⨾ emit_optional_fixed64_field 0x51 m.j)
      buf 0

unfoldable pub numeric_only_reset : NumericOnly → NumericOnly
numeric_only_reset m = record m {
  a = 0;
  b = 0;
  c = 0;
  d = 0;
  e = false;
  f = 0;
  g = 0;
  h = none;
  i = none;
  j = none;
}

-- The receiver within the loop, and the local variable `seenOptional`.
pub record NumericOnlySeen : Type 0 where
  pub value : NumericOnly
  pub seen_optional : ℕ

-- `m.H = …; seenOptional |= 1 << 8`
abbrev pub see : NumericOnlySeen → ℕ → NumericOnly → NumericOnlySeen
see s bit m = record { value = m; seen_optional = bit_or s.seen_optional (2 ^ bit) }

unfoldable pub numeric_only_switch : List ℕ → List ℕ → ℕ → Switch NumericOnlySeen
numeric_only_switch body slab slab_off num wire_type k s =
    let m = s.value in
    if num == 1
    then varint_case "A" 1 body wire_type k s
        (λ v. record s { value = record m { a = v % 2 ^ 32 } })
    else if num == 2
    then varint_case "B" 2 body wire_type k s (λ v. record s { value = record m { b = v } })
    else if num == 3
    then varint_case "C" 3 body wire_type k s (λ v. record s { value = record m { c = v } })
    else if num == 4
    then fixed64_case "D" 4 body wire_type k s (λ v. record s { value = record m { d = v } })
    else if num == 5
    then varint_case "E" 5 body wire_type k s
        (λ v. record s { value = record m { e = not (v == 0) } })
    else if num == 6
    then varint_case "F" 6 body wire_type k s
        (λ v. record s { value = record m { f = zigzag_decode32 (v % 2 ^ 32) } })
    else if num == 7
    then varint_case "G" 7 body wire_type k s
        (λ v. record s { value = record m { g = zigzag_decode64 v } })
    else if num == 8
    then varint_case "H" 8 body wire_type k s (λ v. see s 8 (record m { h = some (v % 2 ^ 32) }))
    else if num == 9
    then varint_case "I" 9 body wire_type k s (λ v. see s 9 (record m { i = some (not (v == 0)) }))
    else if num == 10
    then fixed64_case "J" 10 body wire_type k s (λ v. see s 10 (record m { j = some v }))
    else skip_case body wire_type k s

-- The receiver after the loop: an optional field that was not seen is nil.
unfoldable pub numeric_only_finish : NumericOnlySeen → NumericOnly
numeric_only_finish s =
    let m = s.value in
    let unseen : ℕ → Bool = λ bit. bit_and s.seen_optional (2 ^ bit) == 0 in
    record m {
      h = if unseen 8 then none else m.h;
      i = if unseen 9 then none else m.i;
      j = if unseen 10 then none else m.j;
    }

abbrev pub numeric_only_start : NumericOnly → NumericOnlySeen
numeric_only_start m = record {
  value = record m { a = 0; b = 0; c = 0; d = 0; e = false; f = 0; g = 0 };
  seen_optional = 0;
}

-- An error returns from within the loop.
abbrev pub numeric_only_return : Run NumericOnlySeen → Run NumericOnly
numeric_only_return run =
    and_then run (λ e s. failed e s.value) (λ s i. done (numeric_only_finish s) i)

unfoldable pub numeric_only_unmarshal_internal : List ℕ → List ℕ → ℕ → NumericOnly → Run NumericOnly
numeric_only_unmarshal_internal body slab slab_off m =
    numeric_only_return
      (decode_fields bad_tag body (numeric_only_switch body slab slab_off) (numeric_only_start m))

abbrev pub numeric_only : Methods NumericOnly
numeric_only = record {
  size = numeric_only_size;
  marshal_internal = numeric_only_marshal_internal;
  unmarshal_internal = numeric_only_unmarshal_internal;
  slab = λ bs. [];
  reset = numeric_only_reset;
}
