-- ===== src/Fixtures/Inner/Laws.antt =====
-- `Inner` on the wire: its methods are lawful.
use protoc_gen_codec.Base.{
  List, [], arith, drop, if◌then◌else◌, length, ltb, refl, some, ℕ, ◌++◌, ◌+◌, ◌==◌, ◌≡◌,
}
use protoc_gen_codec.Fixtures.Inner.{
  Inner, inner, inner_marshal_internal, inner_reset, inner_size, inner_switch,
  inner_unmarshal_internal,
}
use protoc_gen_codec.Message.{
  marshal_codec, marshal_to_codec, reset_codec, size_codec, unmarshal_codec,
}
use protoc_gen_codec.Message.Kinds.{
  bad_tag, emit_bytes_field, emit_varint_field, from_slab, size_bytes_field, size_varint_field,
}
use protoc_gen_codec.Message.Kinds.Bytes.{IsShort, bytes_wire}
use protoc_gen_codec.Message.Kinds.Delimited.{InSlab-ReadsBody, ReadsBody}
use protoc_gen_codec.Message.Kinds.Scalar.{varint_wire}
use protoc_gen_codec.Message.Laws.{Lawful, codec_lem, unmarshal_codec_ends}
use protoc_gen_codec.Message.Parts.{Part, string_part, uint64_part, ◌⊕◌}
use protoc_gen_codec.Message.Parts.Stays.{bytes-Stays, on◌stays◌or◌, skip-Stays, varint-Stays}
use protoc_gen_codec.Runtime.Errors.{buffer_too_short, err, ok, sentinel}
use protoc_gen_codec.Runtime.Varint.{IsU64}
use protoc_gen_codec.Wire.Emit.{◌⨾◌}
use protoc_gen_codec.Wire.Emit.Laws.{Writes-Appends}
use protoc_gen_codec.Wire.Loop.{done}
use protoc_gen_codec.Wire.Loop.Laws.{decode_fields_lem}
use protoc_gen_codec.Wire.Loop.Safe.{EndsAll, EndsAt, decode_fields_ends}

-- The values that the Go types of the fields admit.
pub record IsInner (m : Inner) : Type 0 where
  pub label_short : IsShort m.label
  pub count_fits : IsU64 m.count

abbrev pub inner_wire : Inner → List ℕ
inner_wire m = bytes_wire 0x0a m.label ++ varint_wire 0x10 m.count

-- The receiver as the loop finds it.
abbrev no_inner : Inner
no_inner = record { label = []; count = 0 }

-- The fields, each from where the one before leaves the receiver.
abbrev inner_parts :
    (m : Inner)
    → IsInner m
    → Part inner_switch
        (size_bytes_field m.label + size_varint_field m.count)
        (emit_bytes_field 0x0a m.label ⨾ emit_varint_field 0x10 m.count)
        (inner_wire m)
        no_inner
        m
unfolding inner_switch
inner_parts m v =
    let m1 : Inner = record no_inner { label = m.label } in
    string_part "Label" 1 (omega arith) (λ y. record no_inner { label = y }) m.label v.label_short
      (λ body slab slab_off i. refl)
    ⊕ uint64_part "Count" 2 (omega arith) (λ y. record m1 { count = y }) m.count v.count_fits
        (λ body slab slab_off i. refl)

inner_switch_ends :
    (body slab : List ℕ) (slab_off : ℕ)
    → ReadsBody body (from_slab slab slab_off)
    → EndsAll (length body) (inner_switch body slab slab_off)
unfolding inner_switch
inner_switch_ends body slab slab_off r num wire_type i m h =
    (on num == 1
      stays bytes-Stays "Label" 1 body wire_type i m h _ _ r
      or on num == 2
      stays varint-Stays "Count" 2 body wire_type i m h _
      or skip-Stays body wire_type i m h).ends

pub inner-Lawful : Lawful inner IsInner inner_wire (λ m. m)
unfolding inner_size inner_marshal_internal inner_unmarshal_internal
inner-Lawful = record {
  size_wire = λ m v. (inner_parts m v).sized;
  writes_wire = λ m v. Writes-Appends (inner_parts m v).writes;
  reads_wire = λ m r slab slab_off v h.
      decode_fields_lem ((inner_parts m v).reads (inner_wire m) slab slab_off h);
  slab_body = λ bs r. refl;
  ends_at = λ r body slab slab_off h.
      decode_fields_ends bad_tag body _
        (inner_switch_ends body slab slab_off (InSlab-ReadsBody body slab slab_off h)) no_inner;
}

-- For every valid `Inner`, MarshalCodec returns its wire bytes, as many as SizeCodec says;
-- MarshalToCodec writes them at the front of a buffer that holds them and leaves the rest of it,
-- and on a shorter buffer returns ErrBufferTooShort; and UnmarshalCodec on the bytes leaves
-- exactly that value in any receiver and reads to the end.
pub inner_round_trip :
    (m r : Inner) (buf : List ℕ)
    → IsInner m
    → (marshal_codec inner (some m) ≡ ok (inner_wire m))
      × (size_codec inner (some m) ≡ length (inner_wire m))
      × (marshal_to_codec inner (some m) buf ≡ (
          if ltb (length buf) (length (inner_wire m))
          then err (sentinel buffer_too_short)
          else ok (inner_wire m ++ drop (length (inner_wire m)) buf, length (inner_wire m))))
      × (unmarshal_codec inner (some r) (inner_wire m) ≡ done m (length (inner_wire m)))
inner_round_trip m r buf v = codec_lem inner-Lawful m r buf v

-- On any bytes and for any receiver, UnmarshalCodec of `Inner` returns: with the whole input
-- read, or with an error, and never with a panic. What the receiver held before does not show in
-- the outcome, which is that on the receiver after ResetCodec.
pub inner_unmarshal_safe :
    (r : Inner) (bs : List ℕ)
    → EndsAt (length bs) (unmarshal_codec inner (some r) bs)
      × (unmarshal_codec inner (some r) bs ≡ unmarshal_codec inner (reset_codec inner (some r)) bs)
unfolding unmarshal_codec reset_codec inner_unmarshal_internal inner_reset
inner_unmarshal_safe r bs = (unmarshal_codec_ends inner-Lawful r bs, refl)
