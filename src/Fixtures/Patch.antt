-- ===== src/Fixtures/Patch.antt =====
-- The type `Patch` of lang/go/integration/fixture.go and its methods in fixture.codec.go: a sparse struct with an sfixed64 and a digest.
pub mod Laws
use protoc_gen_codec.Base.{List, [], if◌then◌else◌, ℕ, ◌%◌, ◌+◌, ◌==◌, ◌^◌}
use protoc_gen_codec.Message.{Methods}
use protoc_gen_codec.Message.Kinds.{
  bad_tag, bytes_case, digest_case, emit_bytes_field, emit_digest_field, emit_fixed64_field,
  emit_varint_field, fixed64_case, from_slab, size_bytes_field, size_digest_field,
  size_fixed64_field, size_varint_field, skip_case, varint_case, zero_digest,
}
use protoc_gen_codec.Wire.Emit.{Writer, ◌⨾◌}
use protoc_gen_codec.Wire.Loop.{Run, Switch, decode_fields}

-- Strings and byte slices are the lists of their bytes. Integers are their bit patterns.
pub record Patch : Type 0 where
  pub kind : ℕ
  pub vertex_id : ℕ
  pub sequence : ℕ
  pub source : ℕ
  pub text_val : List ℕ
  pub int_val : ℕ
  pub fixed64_val : ℕ
  pub blob_ref : List ℕ

unfoldable pub patch_size : Patch → ℕ
patch_size m =
    size_varint_field m.kind
    + size_varint_field m.vertex_id
    + size_varint_field m.sequence
    + size_varint_field m.source
    + size_bytes_field m.text_val
    + size_varint_field m.int_val
    + size_fixed64_field m.fixed64_val
    + size_digest_field m.blob_ref

unfoldable pub patch_marshal_internal : Patch → Writer
patch_marshal_internal m buf =
    (emit_varint_field 0x08 m.kind
        ⨾ emit_varint_field 0x10 m.vertex_id
        ⨾ emit_varint_field 0x18 m.sequence
        ⨾ emit_varint_field 0x20 m.source
        ⨾ emit_bytes_field 0x2a m.text_val
        ⨾ emit_varint_field 0x30 m.int_val
        ⨾ emit_fixed64_field 0x39 m.fixed64_val
        ⨾ emit_digest_field 0x42 m.blob_ref)
      buf 0

unfoldable pub patch_reset : Patch → Patch
patch_reset m = record m {
  kind = 0;
  vertex_id = 0;
  sequence = 0;
  source = 0;
  text_val = [];
  int_val = 0;
  fixed64_val = 0;
  blob_ref = zero_digest;
}

unfoldable pub patch_switch : List ℕ → List ℕ → ℕ → Switch Patch
patch_switch body slab slab_off num wire_type i m =
    if num == 1
    then varint_case "Kind" 1 body wire_type i m (λ v. record m { kind = v % 2 ^ 8 })
    else if num == 2
    then varint_case "VertexID" 2 body wire_type i m (λ v. record m { vertex_id = v % 2 ^ 32 })
    else if num == 3
    then varint_case "Sequence" 3 body wire_type i m (λ v. record m { sequence = v })
    else if num == 4
    then varint_case "Source" 4 body wire_type i m (λ v. record m { source = v % 2 ^ 8 })
    else if num == 5
    then bytes_case "TextVal" 5 body wire_type i m (from_slab slab slab_off)
        (λ s. record m { text_val = s })
    else if num == 6
    then varint_case "IntVal" 6 body wire_type i m (λ v. record m { int_val = v })
    else if num == 7
    then fixed64_case "Fixed64Val" 7 body wire_type i m (λ v. record m { fixed64_val = v })
    else if num == 8
    then digest_case "BlobRef" 8 body wire_type i m (λ s. record m { blob_ref = s })
    else skip_case body wire_type i m

unfoldable pub patch_unmarshal_internal : List ℕ → List ℕ → ℕ → Patch → Run Patch
patch_unmarshal_internal body slab slab_off m =
    decode_fields bad_tag body (patch_switch body slab slab_off) (record m {
      kind = 0;
      vertex_id = 0;
      sequence = 0;
      source = 0;
      text_val = [];
      int_val = 0;
      fixed64_val = 0;
      blob_ref = zero_digest;
    })

abbrev pub patch : Methods Patch
patch = record {
  size = patch_size;
  marshal_internal = patch_marshal_internal;
  unmarshal_internal = patch_unmarshal_internal;
  slab = λ bs. bs;
  reset = patch_reset;
}
