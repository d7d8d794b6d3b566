-- ===== src/Fixtures/Patch/Laws.antt =====
-- `Patch` on the wire: its methods are lawful.
use protoc_gen_codec.Base.{
  List, [], arith, drop, if◌then◌else◌, length, ltb, refl, some, ℕ, ◌++◌, ◌+◌, ◌<◌, ◌==◌, ◌^◌, ◌≡◌,
}
use protoc_gen_codec.Fixtures.Patch.{
  Patch, patch, patch_marshal_internal, patch_reset, patch_size, patch_switch,
  patch_unmarshal_internal,
}
use protoc_gen_codec.Message.{
  marshal_codec, marshal_to_codec, reset_codec, size_codec, unmarshal_codec,
}
use protoc_gen_codec.Message.Kinds.{
  bad_tag, emit_bytes_field, emit_digest_field, emit_fixed64_field, emit_varint_field, from_slab,
  size_bytes_field, size_digest_field, size_fixed64_field, size_varint_field, zero_digest,
}
use protoc_gen_codec.Message.Kinds.Bytes.{IsShort, bytes_wire, digest_wire}
use protoc_gen_codec.Message.Kinds.Delimited.{InSlab-ReadsBody, ReadsBody}
use protoc_gen_codec.Message.Kinds.Scalar.{fixed64_wire, varint_wire}
use protoc_gen_codec.Message.Laws.{Lawful, codec_lem, unmarshal_codec_ends}
use protoc_gen_codec.Message.Parts.{
  Part, digest_part, fixed64_part, string_part, uint64_part, uint_part, ◌⊕◌,
}
use protoc_gen_codec.Message.Parts.Stays.{
  bytes-Stays, digest-Stays, fixed64-Stays, on◌stays◌or◌, skip-Stays, varint-Stays,
}
use protoc_gen_codec.Runtime.Errors.{buffer_too_short, err, ok, sentinel}
use protoc_gen_codec.Runtime.Varint.{IsU64}
use protoc_gen_codec.Wire.Emit.{◌⨾◌}
use protoc_gen_codec.Wire.Emit.Laws.{Writes-Appends}
use protoc_gen_codec.Wire.Loop.{done}
use protoc_gen_codec.Wire.Loop.Laws.{decode_fields_lem}
use protoc_gen_codec.Wire.Loop.Safe.{EndsAll, EndsAt, decode_fields_ends}

-- The values that the Go types of the fields admit.
pub record IsPatch (m : Patch) : Type 0 where
  pub kind_fits : m.kind < 2 ^ 8
  pub vertex_id_fits : m.vertex_id < 2 ^ 32
  pub sequence_fits : IsU64 m.sequence
  pub source_fits : m.source < 2 ^ 8
  pub text_val_short : IsShort m.text_val
  pub int_val_fits : IsU64 m.int_val
  pub fixed64_val_fits : IsU64 m.fixed64_val
  pub blob_ref_full : length m.blob_ref ≡ 32

abbrev pub patch_wire : Patch → List ℕ
patch_wire m =
    varint_wire 0x08 m.kind
    ++ varint_wire 0x10 m.vertex_id
    ++ varint_wire 0x18 m.sequence
    ++ varint_wire 0x20 m.source
    ++ bytes_wire 0x2a m.text_val
    ++ varint_wire 0x30 m.int_val
    ++ fixed64_wire 0x39 m.fixed64_val
    ++ digest_wire 0x42 m.blob_ref

-- The receiver as the loop finds it.
abbrev no_patch : Patch
no_patch = record {
  kind = 0;
  vertex_id = 0;
  sequence = 0;
  source = 0;
  text_val = [];
  int_val = 0;
  fixed64_val = 0;
  blob_ref = zero_digest;
}

-- The fields, each from where the one before leaves the receiver.
abbrev patch_parts :
    (m : Patch)
    → IsPatch m
    → Part patch_switch
        (size_varint_field m.kind
          + size_varint_field m.vertex_id
          + size_varint_field m.sequence
          + size_varint_field m.source
          + size_bytes_field m.text_val
          + size_varint_field m.int_val
          + size_fixed64_field m.fixed64_val
          + size_digest_field m.blob_ref)
        (emit_varint_field 0x08 m.kind
          ⨾ emit_varint_field 0x10 m.vertex_id
          ⨾ emit_varint_field 0x18 m.sequence
          ⨾ emit_varint_field 0x20 m.source
          ⨾ emit_bytes_field 0x2a m.text_val
          ⨾ emit_varint_field 0x30 m.int_val
          ⨾ emit_fixed64_field 0x39 m.fixed64_val
          ⨾ emit_digest_field 0x42 m.blob_ref)
        (patch_wire m)
        no_patch
        m
unfolding patch_switch
patch_parts m v =
    let m1 : Patch = record no_patch { kind = m.kind } in
    let m2 : Patch = record m1 { vertex_id = m.vertex_id } in
    let m3 : Patch = record m2 { sequence = m.sequence } in
    let m4 : Patch = record m3 { source = m.source } in
    let m5 : Patch = record m4 { text_val = m.text_val } in
    let m6 : Patch = record m5 { int_val = m.int_val } in
    let m7 : Patch = record m6 { fixed64_val = m.fixed64_val } in
    uint_part "Kind" 1 (omega arith) 8 (λ y. record no_patch { kind = y }) m.kind (omega arith)
      v.kind_fits (λ body slab slab_off i. refl)
    ⊕ uint_part "VertexID" 2 (omega arith) 32 (λ y. record m1 { vertex_id = y }) m.vertex_id
        (omega arith) v.vertex_id_fits (λ body slab slab_off i. refl)
    ⊕ uint64_part "Sequence" 3 (omega arith) (λ y. record m2 { sequence = y }) m.sequence
        v.sequence_fits (λ body slab slab_off i. refl)
    ⊕ uint_part "Source" 4 (omega arith) 8 (λ y. record m3 { source = y }) m.source (omega arith)
        v.source_fits (λ body slab slab_off i. refl)
    ⊕ string_part "TextVal" 5 (omega arith) (λ y. record m4 { text_val = y }) m.text_val
        v.text_val_short (λ body slab slab_off i. refl)
    ⊕ uint64_part "IntVal" 6 (omega arith) (λ y. record m5 { int_val = y }) m.int_val v.int_val_fits
        (λ body slab slab_off i. refl)
    ⊕ fixed64_part "Fixed64Val" 7 (omega arith) (λ y. record m6 { fixed64_val = y }) m.fixed64_val
        v.fixed64_val_fits (λ body slab slab_off i. refl)
    ⊕ digest_part "BlobRef" 8 (omega arith) (λ y. record m7 { blob_ref = y }) m.blob_ref
        v.blob_ref_full (λ body slab slab_off i. refl)

patch_switch_ends :
    (body slab : List ℕ) (slab_off : ℕ)
    → ReadsBody body (from_slab slab slab_off)
    → EndsAll (length body) (patch_switch body slab slab_off)
unfolding patch_switch
patch_switch_ends body slab slab_off r num wire_type i m h =
    (on num == 1
      stays varint-Stays "Kind" 1 body wire_type i m h _
      or on num == 2
      stays varint-Stays "VertexID" 2 body wire_type i m h _
      or on num == 3
      stays varint-Stays "Sequence" 3 body wire_type i m h _
      or on num == 4
      stays varint-Stays "Source" 4 body wire_type i m h _
      or on num == 5
      stays bytes-Stays "TextVal" 5 body wire_type i m h _ _ r
      or on num == 6
      stays varint-Stays "IntVal" 6 body wire_type i m h _
      or on num == 7
      stays fixed64-Stays "Fixed64Val" 7 body wire_type i m h _
      or on num == 8
      stays digest-Stays "BlobRef" 8 body wire_type i m h _
      or skip-Stays body wire_type i m h).ends

pub patch-Lawful : Lawful patch IsPatch patch_wire (λ m. m)
unfolding patch_size patch_marshal_internal patch_unmarshal_internal
patch-Lawful = record {
  size_wire = λ m v. (patch_parts m v).sized;
  writes_wire = λ m v. Writes-Appends (patch_parts m v).writes;
  reads_wire = λ m r slab slab_off v h.
      decode_fields_lem ((patch_parts m v).reads (patch_wire m) slab slab_off h);
  slab_body = λ bs r. refl;
  ends_at = λ r body slab slab_off h.
      decode_fields_ends bad_tag body _
        (patch_switch_ends body slab slab_off (InSlab-ReadsBody body slab slab_off h)) no_patch;
}

-- For every valid `Patch`, MarshalCodec returns its wire bytes, as many as SizeCodec says;
-- MarshalToCodec writes them at the front of a buffer that holds them and leaves the rest of it,
-- and on a shorter buffer returns ErrBufferTooShort; and UnmarshalCodec on the bytes leaves
-- exactly that value in any receiver and reads to the end.
pub patch_round_trip :
    (m r : Patch) (buf : List ℕ)
    → IsPatch m
    → (marshal_codec patch (some m) ≡ ok (patch_wire m))
      × (size_codec patch (some m) ≡ length (patch_wire m))
      × (marshal_to_codec patch (some m) buf ≡ (
          if ltb (length buf) (length (patch_wire m))
          then err (sentinel buffer_too_short)
          else ok (patch_wire m ++ drop (length (patch_wire m)) buf, length (patch_wire m))))
      × (unmarshal_codec patch (some r) (patch_wire m) ≡ done m (length (patch_wire m)))
patch_round_trip m r buf v = codec_lem patch-Lawful m r buf v

-- On any bytes and for any receiver, UnmarshalCodec of `Patch` returns: with the whole input
-- read, or with an error, and never with a panic. What the receiver held before does not show in
-- the outcome, which is that on the receiver after ResetCodec.
pub patch_unmarshal_safe :
    (r : Patch) (bs : List ℕ)
    → EndsAt (length bs) (unmarshal_codec patch (some r) bs)
      × (unmarshal_codec patch (some r) bs ≡ unmarshal_codec patch (reset_codec patch (some r)) bs)
unfolding unmarshal_codec reset_codec patch_unmarshal_internal patch_reset
patch_unmarshal_safe r bs = (unmarshal_codec_ends patch-Lawful r bs, refl)
