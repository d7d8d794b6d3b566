-- ===== src/Fixtures/TypedStrings/Laws.antt =====
-- `TypedStrings` on the wire: its methods are lawful.
use protoc_gen_codec.Base.{
  All, List, [], arith, drop, if◌then◌else◌, length, ltb, refl, some, ℕ, ◌++◌, ◌+◌, ◌==◌, ◌≡◌,
}
use protoc_gen_codec.Fixtures.TypedStrings.{
  TypedStrings, typed_strings, typed_strings_marshal_internal, typed_strings_size,
  typed_strings_switch, typed_strings_unmarshal_internal,
}
use protoc_gen_codec.Message.{marshal_codec, marshal_to_codec, size_codec, unmarshal_codec}
use protoc_gen_codec.Message.Kinds.{
  bad_tag, emit_bytes_field, emit_repeated_field, from_slab, size_bytes_field, size_repeated_field,
}
use protoc_gen_codec.Message.Kinds.Bytes.{IsShort, bytes_wire, repeated_wire}
use protoc_gen_codec.Message.Kinds.Delimited.{InSlab-ReadsBody, ReadsBody}
use protoc_gen_codec.Message.Laws.{Lawful, codec_lem}
use protoc_gen_codec.Message.Parts.{Part, string_part, strings_part, ◌⊕◌}
use protoc_gen_codec.Message.Parts.Stays.{bytes-Stays, on◌stays◌or◌, skip-Stays}
use protoc_gen_codec.Runtime.Errors.{buffer_too_short, err, ok, sentinel}
use protoc_gen_codec.Wire.Emit.{◌⨾◌}
use protoc_gen_codec.Wire.Emit.Laws.{Writes-Appends}
use protoc_gen_codec.Wire.Loop.{done}
use protoc_gen_codec.Wire.Loop.Laws.{decode_fields_lem}
use protoc_gen_codec.Wire.Loop.Safe.{EndsAll, decode_fields_ends}

-- The values that the Go types of the fields admit.
pub record IsTypedStrings (m : TypedStrings) : Type 0 where
  pub id_short : IsShort m.id
  pub tags_short : All IsShort m.tags

abbrev pub typed_strings_wire : TypedStrings → List ℕ
typed_strings_wire m = bytes_wire 0x0a m.id ++ repeated_wire 0x12 m.tags

-- The receiver as the loop finds it.
abbrev no_typed_strings : TypedStrings
no_typed_strings = record { id = []; tags = [] }

-- The fields, each from where the one before leaves the receiver.
abbrev typed_strings_parts :
    (m : TypedStrings)
    → IsTypedStrings m
    → Part typed_strings_switch
        (size_bytes_field m.id + size_repeated_field m.tags)
        (emit_bytes_field 0x0a m.id ⨾ emit_repeated_field 0x12 m.tags)
        (typed_strings_wire m)
        no_typed_strings
        m
unfolding typed_strings_switch
typed_strings_parts m v =
    let m1 : TypedStrings = record no_typed_strings { id = m.id } in
    string_part "ID" 1 (omega arith) (λ y. record no_typed_strings { id = y }) m.id v.id_short
      (λ body slab slab_off i. refl)
    ⊕ strings_part "Tags" 2 (omega arith) (λ y. record m1 { tags = y }) m.tags v.tags_short
        (λ body slab slab_off i got. refl)

typed_strings_switch_ends :
    (body slab : List ℕ) (slab_off : ℕ)
    → ReadsBody body (from_slab slab slab_off)
    → EndsAll (length body) (typed_strings_switch body slab slab_off)
unfolding typed_strings_switch
typed_strings_switch_ends body slab slab_off r num wire_type i m h =
    (on num == 1
      stays bytes-Stays "ID" 1 body wire_type i m h _ _ r
      or on num == 2
      stays bytes-Stays "Tags" 2 body wire_type i m h _ _ r
      or skip-Stays body wire_type i m h).ends

pub typed_strings-Lawful : Lawful typed_strings IsTypedStrings typed_strings_wire (λ m. m)
unfolding typed_strings_size typed_strings_marshal_internal typed_strings_unmarshal_internal
typed_strings-Lawful = record {
  size_wire = λ m v. (typed_strings_parts m v).sized;
  writes_wire = λ m v. Writes-Appends (typed_strings_parts m v).writes;
  reads_wire = λ m r slab slab_off v h.
      decode_fields_lem ((typed_strings_parts m v).reads (typed_strings_wire m) slab slab_off h);
  slab_body = λ bs r. refl;
  ends_at = λ r body slab slab_off h.
      decode_fields_ends bad_tag body _
        (typed_strings_switch_ends body slab slab_off (InSlab-ReadsBody body slab slab_off h))
        no_typed_strings;
}

-- For every valid `TypedStrings`, MarshalCodec returns its wire bytes, as many as SizeCodec says;
-- MarshalToCodec writes them at the front of a buffer that holds them and leaves the rest of it,
-- and on a shorter buffer returns ErrBufferTooShort; and UnmarshalCodec on the bytes leaves
-- exactly that value in any receiver and reads to the end.
pub typed_strings_round_trip :
    (m r : TypedStrings) (buf : List ℕ)
    → IsTypedStrings m
    → (marshal_codec typed_strings (some m) ≡ ok (typed_strings_wire m))
      × (size_codec typed_strings (some m) ≡ length (typed_strings_wire m))
      × (marshal_to_codec typed_strings (some m) buf ≡ (
          if ltb (length buf) (length (typed_strings_wire m))
          then err (sentinel buffer_too_short)
          else ok (
            typed_strings_wire m ++ drop (length (typed_strings_wire m)) buf,
            length (typed_strings_wire m),
          )))
      × (unmarshal_codec typed_strings (some r) (typed_strings_wire m)
          ≡ done m (length (typed_strings_wire m)))
typed_strings_round_trip m r buf v = codec_lem typed_strings-Lawful m r buf v
