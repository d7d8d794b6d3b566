-- ===== src/Fixtures/External/Laws.antt =====
-- `External` on the wire: its methods are lawful.
use protoc_gen_codec.Base.{
  List, [], arith, drop, if◌then◌else◌, length, ltb, refl, some, ℕ, ◌++◌, ◌+◌, ◌==◌, ◌≡◌,
}
use protoc_gen_codec.Fixtures.External.{
  External, external, external_marshal_internal, external_size, external_switch,
  external_unmarshal_internal,
}
use protoc_gen_codec.Message.{marshal_codec, marshal_to_codec, size_codec, unmarshal_codec}
use protoc_gen_codec.Message.Kinds.{
  bad_tag, emit_bytes_field, emit_varint_field, from_slab, size_bytes_field, size_varint_field,
}
use protoc_gen_codec.Message.Kinds.Bytes.{IsShort, bytes_wire}
use protoc_gen_codec.Message.Kinds.Delimited.{InSlab-ReadsBody, ReadsBody}
use protoc_gen_codec.Message.Kinds.Scalar.{varint_wire}
use protoc_gen_codec.Message.Laws.{Lawful, codec_lem}
use protoc_gen_codec.Message.Parts.{Part, string_part, uint64_part, ◌⊕◌}
use protoc_gen_codec.Message.Parts.Stays.{bytes-Stays, on◌stays◌or◌, skip-Stays, varint-Stays}
use protoc_gen_codec.Runtime.Errors.{buffer_too_short, err, ok, sentinel}
use protoc_gen_codec.Runtime.Varint.{IsU64}
use protoc_gen_codec.Wire.Emit.{◌⨾◌}
use protoc_gen_codec.Wire.Emit.Laws.{Writes-Appends}
use protoc_gen_codec.Wire.Loop.{done}
use protoc_gen_codec.Wire.Loop.Laws.{decode_fields_lem}
use protoc_gen_codec.Wire.Loop.Safe.{EndsAll, decode_fields_ends}

-- The values that the Go types of the fields admit.
pub record IsExternal (m : External) : Type 0 where
  pub tag_short : IsShort m.tag
  pub seq_fits : IsU64 m.seq

abbrev pub external_wire : External → List ℕ
external_wire m = bytes_wire 0x0a m.tag ++ varint_wire 0x10 m.seq

-- The receiver as the loop finds it.
abbrev no_external : External
no_external = record { tag = []; seq = 0 }

-- The fields, each from where the one before leaves the receiver.
abbrev external_parts :
    (m : External)
    → IsExternal m
    → Part external_switch
        (size_bytes_field m.tag + size_varint_field m.seq)
        (emit_bytes_field 0x0a m.tag ⨾ emit_varint_field 0x10 m.seq)
        (external_wire m)
        no_external
        m
unfolding external_switch
external_parts m v =
    let m1 : External = record no_external { tag = m.tag } in
    string_part "Tag" 1 (omega arith) (λ y. record no_external { tag = y }) m.tag v.tag_short
      (λ body slab slab_off i. refl)
    ⊕ uint64_part "Seq" 2 (omega arith) (λ y. record m1 { seq = y }) m.seq v.seq_fits
        (λ body slab slab_off i. refl)

external_switch_ends :
    (body slab : List ℕ) (slab_off : ℕ)
    → ReadsBody body (from_slab slab slab_off)
    → EndsAll (length body) (external_switch body slab slab_off)
unfolding external_switch
external_switch_ends body slab slab_off r num wire_type i m h =
    (on num == 1
      stays bytes-Stays "Tag" 1 body wire_type i m h _ _ r
      or on num == 2
      stays varint-Stays "Seq" 2 body wire_type i m h _
      or skip-Stays body wire_type i m h).ends

pub external-Lawful : Lawful external IsExternal external_wire (λ m. m)
unfolding external_size external_marshal_internal external_unmarshal_internal
external-Lawful = record {
  size_wire = λ m v. (external_parts m v).sized;
  writes_wire = λ m v. Writes-Appends (external_parts m v).writes;
  reads_wire = λ m r slab slab_off v h.
      decode_fields_lem ((external_parts m v).reads (external_wire m) slab slab_off h);
  slab_body = λ bs r. refl;
  ends_at = λ r body slab slab_off h.
      decode_fields_ends bad_tag body _
        (external_switch_ends body slab slab_off (InSlab-ReadsBody body slab slab_off h))
        no_external;
}

-- For every valid `External`, MarshalCodec returns its wire bytes, as many as SizeCodec says;
-- MarshalToCodec writes them at the front of a buffer that holds them and leaves the rest of it,
-- and on a shorter buffer returns ErrBufferTooShort; and UnmarshalCodec on the bytes leaves
-- exactly that value in any receiver and reads to the end.
pub external_round_trip :
    (m r : External) (buf : List ℕ)
    → IsExternal m
    → (marshal_codec external (some m) ≡ ok (external_wire m))
      × (size_codec external (some m) ≡ length (external_wire m))
      × (marshal_to_codec external (some m) buf ≡ (
          if ltb (length buf) (length (external_wire m))
          then err (sentinel buffer_too_short)
          else ok
              (external_wire m ++ drop (length (external_wire m)) buf, length (external_wire m))))
      × (unmarshal_codec external (some r) (external_wire m) ≡ done m (length (external_wire m)))
external_round_trip m r buf v = codec_lem external-Lawful m r buf v
