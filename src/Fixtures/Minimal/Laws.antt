-- ===== src/Fixtures/Minimal/Laws.antt =====
-- `Minimal` on the wire: its methods are lawful.
use protoc_gen_codec.Base.{
  List, [], arith, drop, if◌then◌else◌, length, ltb, refl, some, ℕ, ◌++◌, ◌==◌, ◌≡◌,
}
use protoc_gen_codec.Fixtures.Minimal.{
  Minimal, minimal, minimal_marshal_internal, minimal_size, minimal_switch,
  minimal_unmarshal_internal,
}
use protoc_gen_codec.Message.{marshal_codec, marshal_to_codec, size_codec, unmarshal_codec}
use protoc_gen_codec.Message.Kinds.{bad_tag, emit_bytes_field, from_slab, size_bytes_field}
use protoc_gen_codec.Message.Kinds.Bytes.{IsShort, bytes_wire}
use protoc_gen_codec.Message.Kinds.Delimited.{InSlab-ReadsBody, ReadsBody}
use protoc_gen_codec.Message.Laws.{Lawful, codec_lem}
use protoc_gen_codec.Message.Parts.{Part, string_part}
use protoc_gen_codec.Message.Parts.Stays.{bytes-Stays, on◌stays◌or◌, skip-Stays}
use protoc_gen_codec.Runtime.Errors.{buffer_too_short, err, ok, sentinel}
use protoc_gen_codec.Wire.Emit.Laws.{Writes-Appends}
use protoc_gen_codec.Wire.Loop.{done}
use protoc_gen_codec.Wire.Loop.Laws.{decode_fields_lem}
use protoc_gen_codec.Wire.Loop.Safe.{EndsAll, decode_fields_ends}

-- The values that the Go types of the fields admit.
pub record IsMinimal (m : Minimal) : Type 0 where
  pub id_short : IsShort m.id

abbrev pub minimal_wire : Minimal → List ℕ
minimal_wire m = bytes_wire 0x0a m.id

-- The receiver as the loop finds it.
abbrev no_minimal : Minimal
no_minimal = record { id = [] }

-- The fields, each from where the one before leaves the receiver.
abbrev minimal_parts :
    (m : Minimal)
    → IsMinimal m
    → Part minimal_switch
        (size_bytes_field m.id)
        (emit_bytes_field 0x0a m.id)
        (minimal_wire m)
        no_minimal
        m
unfolding minimal_switch
minimal_parts m v =
    string_part "ID" 1 (omega arith) (λ y. record no_minimal { id = y }) m.id v.id_short
      (λ body slab slab_off i. refl)

minimal_switch_ends :
    (body slab : List ℕ) (slab_off : ℕ)
    → ReadsBody body (from_slab slab slab_off)
    → EndsAll (length body) (minimal_switch body slab slab_off)
unfolding minimal_switch
minimal_switch_ends body slab slab_off r num wire_type i m h =
    (on num == 1
      stays bytes-Stays "ID" 1 body wire_type i m h _ _ r
      or skip-Stays body wire_type i m h).ends

pub minimal-Lawful : Lawful minimal IsMinimal minimal_wire (λ m. m)
unfolding minimal_size minimal_marshal_internal minimal_unmarshal_internal
minimal-Lawful = record {
  size_wire = λ m v. (minimal_parts m v).sized;
  writes_wire = λ m v. Writes-Appends (minimal_parts m v).writes;
  reads_wire = λ m r slab slab_off v h.
      decode_fields_lem ((minimal_parts m v).reads (minimal_wire m) slab slab_off h);
  slab_body = λ bs r. refl;
  ends_at = λ r body slab slab_off h.
      decode_fields_ends bad_tag body _
        (minimal_switch_ends body slab slab_off (InSlab-ReadsBody body slab slab_off h)) no_minimal;
}

-- For every valid `Minimal`, MarshalCodec returns its wire bytes, as many as SizeCodec says;
-- MarshalToCodec writes them at the front of a buffer that holds them and leaves the rest of it,
-- and on a shorter buffer returns ErrBufferTooShort; and UnmarshalCodec on the bytes leaves
-- exactly that value in any receiver and reads to the end.
minimal_round_trip :
    (m r : Minimal) (buf : List ℕ)
    → IsMinimal m
    → (marshal_codec minimal (some m) ≡ ok (minimal_wire m))
      × (size_codec minimal (some m) ≡ length (minimal_wire m))
      × (marshal_to_codec minimal (some m) buf ≡ (
          if ltb (length buf) (length (minimal_wire m))
          then err (sentinel buffer_too_short)
          else ok (minimal_wire m ++ drop (length (minimal_wire m)) buf, length (minimal_wire m))))
      × (unmarshal_codec minimal (some r) (minimal_wire m) ≡ done m (length (minimal_wire m)))
minimal_round_trip m r buf v = codec_lem minimal-Lawful m r buf v
