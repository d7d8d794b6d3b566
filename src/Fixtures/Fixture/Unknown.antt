-- ===== src/Fixtures/Fixture/Unknown.antt =====
-- A `Fixture` that stands among fields of numbers it does not have.
use protoc_gen_codec.Base.{List, arith, length, some, ℕ, ◌++◌, ◌<◌, ◌^◌, ◌∙◌, ◌≡◌}
use protoc_gen_codec.Fixtures.Fixture.{Fixture, fixture, fixture_switch, fixture_unmarshal_internal}
use protoc_gen_codec.Fixtures.Fixture.Laws.{IsFixture, fixture_parts, fixture_wire, no_fixture}
use protoc_gen_codec.Message.{unmarshal_codec}
use protoc_gen_codec.Message.Kinds.{bad_tag, skip_case}
use protoc_gen_codec.Message.Unknown.{IsRefused, UnknownFields, skip_case_refused, unknown-Takes}
use protoc_gen_codec.Runtime.Errors.{invalid_wire_type, sentinel, with_wire_type}
use protoc_gen_codec.Wire.Loop.{done, failed}
use protoc_gen_codec.Wire.Loop.Fails.{decode_fields-fails}
use protoc_gen_codec.Wire.Loop.Laws.{Takes, Takes-append, decode_fields_lem, field_bytes}
use protoc_gen_codec.Wire.Slab.{in_self}

above_skips :
    (body slab : List ℕ) (slab_off num wire_type i : ℕ) (m : Fixture)
    → 10 < num
    → fixture_switch body slab slab_off num wire_type i m ≡ skip_case body wire_type i m
unfolding fixture_switch
above_skips body slab slab_off num wire_type i m h = ground arith

fixture_among_unknown :
    (body : List ℕ) (m : Fixture) (before behind : List ℕ)
    → IsFixture m
    → UnknownFields 10 before
    → UnknownFields 10 behind
    → Takes bad_tag body
        (fixture_switch body body 0)
        (before ++ fixture_wire m ++ behind)
        no_fixture
        m
fixture_among_unknown body m before behind v u w =
    let skips = above_skips body body 0 in
    Takes-append
      (Takes-append
        (unknown-Takes body bad_tag (fixture_switch body body 0) 10 skips before no_fixture u)
        ((fixture_parts m v).reads body body 0 (in_self body)))
      (unknown-Takes body bad_tag (fixture_switch body body 0) 10 skips behind m w)

-- UnmarshalCodec of `Fixture` skips fields with unknown numbers, each a varint, eight bytes, a length
-- with as many bytes, or four bytes: where such fields stand in front of and behind the wire bytes of a
-- valid `Fixture`, it reads to the end and leaves exactly that value in any receiver.
pub fixture_unknown_skipped :
    (m r : Fixture) (before behind : List ℕ)
    → IsFixture m
    → UnknownFields 10 before
    → UnknownFields 10 behind
    → unmarshal_codec fixture (some r) (before ++ fixture_wire m ++ behind)
      ≡ done m (length (before ++ fixture_wire m ++ behind))
unfolding unmarshal_codec fixture_unmarshal_internal
fixture_unknown_skipped m r before behind v u w =
    decode_fields_lem
      (fixture_among_unknown (before ++ fixture_wire m ++ behind) m before behind v u w)

-- UnmarshalCodec of `Fixture` refuses a field with an unknown number and the wire type 3, 4, 6 or 7:
-- where it stands behind the wire bytes of a valid `Fixture`, with fields with unknown numbers that are
-- skipped in front of and behind those, the result is ErrInvalidWireType with the wire type, whatever
-- follows, and the receiver holds the value read so far.
pub fixture_unknown_refused :
    (m r : Fixture) (before behind rest : List ℕ) (num wire_type : ℕ)
    → IsFixture m
    → UnknownFields 10 before
    → UnknownFields 10 behind
    → 10 < num
    → num < 2 ^ 29
    → IsRefused wire_type
    → unmarshal_codec fixture
        (some r)
        (before ++ fixture_wire m ++ behind ++ field_bytes num wire_type rest)
      ≡ failed (with_wire_type wire_type (sentinel invalid_wire_type)) m
unfolding unmarshal_codec fixture_unmarshal_internal
fixture_unknown_refused m r before behind rest num wire_type v u w above fits refused =
    let body = before ++ fixture_wire m ++ behind ++ field_bytes num wire_type rest in
    decode_fields-fails (before ++ fixture_wire m ++ behind) num wire_type rest
      (omega (arith, refused)) (omega (arith, refused))
      (fixture_among_unknown body m before behind v u w)
      λ i at.
        above_skips body body 0 num wire_type i m above
        ∙ skip_case_refused body wire_type i m refused at.0
