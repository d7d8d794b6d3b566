-- ===== src/Fixtures/External.antt =====
-- The type `External` of lang/go/integration/external/external.go and its methods in external.codec.go: a message of another package.
pub mod Laws
use protoc_gen_codec.Base.{List, [], if◌then◌else◌, ℕ, ◌+◌, ◌==◌}
use protoc_gen_codec.Message.{Methods}
use protoc_gen_codec.Message.Kinds.{
  bad_tag, bytes_case, emit_bytes_field, emit_varint_field, from_slab, size_bytes_field,
  size_varint_field, skip_case, varint_case,
}
use protoc_gen_codec.Wire.Emit.{Writer, ◌⨾◌}
use protoc_gen_codec.Wire.Loop.{Run, Switch, decode_fields}

-- Strings and byte slices are the lists of their bytes. Integers are their bit patterns.
pub record External : Type 0 where
  pub tag : List ℕ
  pub seq : ℕ

-- `External{}`, and what `new(External)` points to.
abbrev pub zero_external : External
zero_external = record { tag = []; seq = 0 }

unfoldable pub external_size : External → ℕ
external_size m = size_bytes_field m.tag + size_varint_field m.seq

unfoldable pub external_marshal_internal : External → Writer
external_marshal_internal m buf = (emit_bytes_field 0x0a m.tag ⨾ emit_varint_field 0x10 m.seq) buf 0

unfoldable pub external_reset : External → External
external_reset m = record m { tag = []; seq = 0 }

unfoldable pub external_switch : List ℕ → List ℕ → ℕ → Switch External
external_switch body slab slab_off num wire_type i m =
    if num == 1
    then bytes_case "Tag" 1 body wire_type i m (from_slab slab slab_off) (λ s. record m { tag = s })
    else if num == 2
    then varint_case "Seq" 2 body wire_type i m (λ v. record m { seq = v })
    else skip_case body wire_type i m

unfoldable pub external_unmarshal_internal : List ℕ → List ℕ → ℕ → External → Run External
external_unmarshal_internal body slab slab_off m =
    decode_fields bad_tag body (external_switch body slab slab_off) (record m { tag = []; seq = 0 })

abbrev pub external : Methods External
external = record {
  size = external_size;
  marshal_internal = external_marshal_internal;
  unmarshal_internal = external_unmarshal_internal;
  slab = λ bs. bs;
  reset = external_reset;
}
