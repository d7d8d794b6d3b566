-- ===== src/Fixtures/Fixture/Laws.antt =====
-- `Fixture` on the wire: its methods are lawful.
use protoc_gen_codec.Base.{
  All, List, [], arith, drop, false, if◌then◌else◌, length, ltb, refl, some, ℕ, ◌++◌, ◌+◌, ◌<◌,
  ◌==◌, ◌^◌, ◌≡◌,
}
use protoc_gen_codec.Fixtures.Fixture.{
  Fixture, fixture, fixture_marshal_internal, fixture_size, fixture_switch,
  fixture_unmarshal_internal,
}
use protoc_gen_codec.Message.{marshal_codec, marshal_to_codec, size_codec, unmarshal_codec}
use protoc_gen_codec.Message.Kinds.{
  bad_tag, emit_bool_field, emit_bytes_field, emit_digest_field, emit_repeated_field,
  emit_varint_field, from_slab, size_bool_field, size_bytes_field, size_digest_field,
  size_repeated_field, size_varint_field, zero_digest,
}
use protoc_gen_codec.Message.Kinds.Bytes.{IsShort, bytes_wire, digest_wire, repeated_wire}
use protoc_gen_codec.Message.Kinds.Delimited.{InSlab-ReadsBody, ReadsBody, from_body-ReadsBody}
use protoc_gen_codec.Message.Kinds.Scalar.{bool_wire, varint_wire}
use protoc_gen_codec.Message.Laws.{Lawful, codec_lem}
use protoc_gen_codec.Message.Parts.{
  Part, bool_part, bytes_part, digest_part, string_part, strings_part, uint64_part, uint_part, ◌⊕◌,
}
use protoc_gen_codec.Message.Parts.Stays.{
  bytes-Stays, digest-Stays, on◌stays◌or◌, skip-Stays, varint-Stays,
}
use protoc_gen_codec.Runtime.Errors.{buffer_too_short, err, ok, sentinel}
use protoc_gen_codec.Runtime.Varint.{IsU64}
use protoc_gen_codec.Wire.Emit.{◌⨾◌}
use protoc_gen_codec.Wire.Emit.Laws.{Writes-Appends}
use protoc_gen_codec.Wire.Loop.{done}
use protoc_gen_codec.Wire.Loop.Laws.{decode_fields_lem}
use protoc_gen_codec.Wire.Loop.Safe.{EndsAll, decode_fields_ends}

-- The values that the Go types of the fields admit.
pub record IsFixture (m : Fixture) : Type 0 where
  pub id_short : IsShort m.id
  pub kind_fits : m.kind < 2 ^ 32
  pub status_fits : m.status < 2 ^ 8
  pub score_fits : IsU64 m.score
  pub sequence_fits : IsU64 m.sequence
  pub timestamp_fits : IsU64 m.timestamp
  pub ref_full : length m.ref ≡ 32
  pub tags_short : All IsShort m.tags
  pub data_bytes_short : IsShort m.data_bytes

abbrev pub fixture_wire : Fixture → List ℕ
fixture_wire m =
    bytes_wire 0x0a m.id
    ++ varint_wire 0x10 m.kind
    ++ varint_wire 0x18 m.status
    ++ varint_wire 0x20 m.score
    ++ varint_wire 0x28 m.sequence
    ++ bool_wire 0x30 m.enabled
    ++ varint_wire 0x38 m.timestamp
    ++ digest_wire 0x42 m.ref
    ++ repeated_wire 0x4a m.tags
    ++ bytes_wire 0x52 m.data_bytes

-- The receiver as the loop finds it.
abbrev pub no_fixture : Fixture
no_fixture = record {
  id = [];
  kind = 0;
  status = 0;
  score = 0;
  sequence = 0;
  enabled = false;
  timestamp = 0;
  ref = zero_digest;
  tags = [];
  data_bytes = [];
}

-- The fields, each from where the one before leaves the receiver.
abbrev pub fixture_parts :
    (m : Fixture)
    → IsFixture m
    → Part fixture_switch
        (size_bytes_field m.id
          + size_varint_field m.kind
          + size_varint_field m.status
          + size_varint_field m.score
          + size_varint_field m.sequence
          + size_bool_field m.enabled
          + size_varint_field m.timestamp
          + size_digest_field m.ref
          + size_repeated_field m.tags
          + size_bytes_field m.data_bytes)
        (emit_bytes_field 0x0a m.id
          ⨾ emit_varint_field 0x10 m.kind
          ⨾ emit_varint_field 0x18 m.status
          ⨾ emit_varint_field 0x20 m.score
          ⨾ emit_varint_field 0x28 m.sequence
          ⨾ emit_bool_field 0x30 m.enabled
          ⨾ emit_varint_field 0x38 m.timestamp
          ⨾ emit_digest_field 0x42 m.ref
          ⨾ emit_repeated_field 0x4a m.tags
          ⨾ emit_bytes_field 0x52 m.data_bytes)
        (fixture_wire m)
        no_fixture
        m
unfolding fixture_switch
fixture_parts m v =
    let m1 : Fixture = record no_fixture { id = m.id } in
    let m2 : Fixture = record m1 { kind = m.kind } in
    let m3 : Fixture = record m2 { status = m.status } in
    let m4 : Fixture = record m3 { score = m.score } in
    let m5 : Fixture = record m4 { sequence = m.sequence } in
    let m6 : Fixture = record m5 { enabled = m.enabled } in
    let m7 : Fixture = record m6 { timestamp = m.timestamp } in
    let m8 : Fixture = record m7 { ref = m.ref } in
    let m9 : Fixture = record m8 { tags = m.tags } in
    string_part "ID" 1 (omega arith) (λ y. record no_fixture { id = y }) m.id v.id_short
      (λ body slab slab_off i. refl)
    ⊕ uint_part "Kind" 2 (omega arith) 32 (λ y. record m1 { kind = y }) m.kind (omega arith)
        v.kind_fits (λ body slab slab_off i. refl)
    ⊕ uint_part "Status" 3 (omega arith) 8 (λ y. record m2 { status = y }) m.status (omega arith)
        v.status_fits (λ body slab slab_off i. refl)
    ⊕ uint64_part "Score" 4 (omega arith) (λ y. record m3 { score = y }) m.score v.score_fits
        (λ body slab slab_off i. refl)
    ⊕ uint64_part "Sequence" 5 (omega arith) (λ y. record m4 { sequence = y }) m.sequence
        v.sequence_fits (λ body slab slab_off i. refl)
    ⊕ bool_part "Enabled" 6 (omega arith) (λ y. record m5 { enabled = y }) m.enabled
        (λ body slab slab_off i. refl)
    ⊕ uint64_part "Timestamp" 7 (omega arith) (λ y. record m6 { timestamp = y }) m.timestamp
        v.timestamp_fits (λ body slab slab_off i. refl)
    ⊕ digest_part "Ref" 8 (omega arith) (λ y. record m7 { ref = y }) m.ref v.ref_full
        (λ body slab slab_off i. refl)
    ⊕ strings_part "Tags" 9 (omega arith) (λ y. record m8 { tags = y }) m.tags v.tags_short
        (λ body slab slab_off i got. refl)
    ⊕ bytes_part "Data" 10 (omega arith) (λ y. record m9 { data_bytes = y }) m.data_bytes
        v.data_bytes_short (λ body slab slab_off i. refl)

fixture_switch_ends :
    (body slab : List ℕ) (slab_off : ℕ)
    → ReadsBody body (from_slab slab slab_off)
    → EndsAll (length body) (fixture_switch body slab slab_off)
unfolding fixture_switch
fixture_switch_ends body slab slab_off r num wire_type i m h =
    (on num == 1
      stays bytes-Stays "ID" 1 body wire_type i m h _ _ r
      or on num == 2
      stays varint-Stays "Kind" 2 body wire_type i m h _
      or on num == 3
      stays varint-Stays "Status" 3 body wire_type i m h _
      or on num == 4
      stays varint-Stays "Score" 4 body wire_type i m h _
      or on num == 5
      stays varint-Stays "Sequence" 5 body wire_type i m h _
      or on num == 6
      stays varint-Stays "Enabled" 6 body wire_type i m h _
      or on num == 7
      stays varint-Stays "Timestamp" 7 body wire_type i m h _
      or on num == 8
      stays digest-Stays "Ref" 8 body wire_type i m h _
      or on num == 9
      stays bytes-Stays "Tags" 9 body wire_type i m h _ _ r
      or on num == 10
      stays bytes-Stays "Data" 10 body wire_type i m h _ _ (from_body-ReadsBody body)
      or skip-Stays body wire_type i m h).ends

pub fixture-Lawful : Lawful fixture IsFixture fixture_wire (λ m. m)
unfolding fixture_size fixture_marshal_internal fixture_unmarshal_internal
fixture-Lawful = record {
  size_wire = λ m v. (fixture_parts m v).sized;
  writes_wire = λ m v. Writes-Appends (fixture_parts m v).writes;
  reads_wire = λ m r slab slab_off v h.
      decode_fields_lem ((fixture_parts m v).reads (fixture_wire m) slab slab_off h);
  slab_body = λ bs r. refl;
  ends_at = λ r body slab slab_off h.
      decode_fields_ends bad_tag body _
        (fixture_switch_ends body slab slab_off (InSlab-ReadsBody body slab slab_off h)) no_fixture;
}

-- For every valid `Fixture`, MarshalCodec returns its wire bytes, as many as SizeCodec says;
-- MarshalToCodec writes them at the front of a buffer that holds them and leaves the rest of it,
-- and on a shorter buffer returns ErrBufferTooShort; and UnmarshalCodec on the bytes leaves
-- exactly that value in any receiver and reads to the end.
pub fixture_round_trip :
    (m r : Fixture) (buf : List ℕ)
    → IsFixture m
    → (marshal_codec fixture (some m) ≡ ok (fixture_wire m))
      × (size_codec fixture (some m) ≡ length (fixture_wire m))
      × (marshal_to_codec fixture (some m) buf ≡ (
          if ltb (length buf) (length (fixture_wire m))
          then err (sentinel buffer_too_short)
          else ok (fixture_wire m ++ drop (length (fixture_wire m)) buf, length (fixture_wire m))))
      × (unmarshal_codec fixture (some r) (fixture_wire m) ≡ done m (length (fixture_wire m)))
fixture_round_trip m r buf v = codec_lem fixture-Lawful m r buf v
