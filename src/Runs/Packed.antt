-- ===== src/Runs/Packed.antt =====
-- Packed fields at concrete inputs.
use protoc_gen_codec.Base.{
  List, [], arith, drop, if◌then◌else◌, length, ltb, refl, replicate, some, ℕ, ◌++◌, ◌-◌, ◌^◌, ◌∷◌,
  ◌≡◌,
}
use protoc_gen_codec.Fixtures.PackedZigzag.{
  PackedZigzag, packed_zigzag, packed_zigzag_switch, packed_zigzag_unmarshal_internal,
}
use protoc_gen_codec.Fixtures.PackedZigzag.Laws.{
  IsPackedZigzag, packed_zigzag_round_trip, packed_zigzag_wire,
}
use protoc_gen_codec.Message.{marshal_codec, marshal_to_codec, size_codec, unmarshal_codec}
use protoc_gen_codec.Message.Kinds.Packed.{packed_case, packed_loop}
use protoc_gen_codec.Runtime.Errors.{buffer_too_short, err, ok, sentinel}
use protoc_gen_codec.Runtime.Varint.{decode_loop, decode_varint}
use protoc_gen_codec.Runtime.Varint.Groups.{groups, varint}
use protoc_gen_codec.Runtime.Zigzag.{zigzag_decode32, zigzag_encode32, zigzag_encode64}
use protoc_gen_codec.Wire.Loop.{decode_fields, done, field_loop}
use protoc_gen_codec.Wire.Read.{or_fail, read_varint, slice_from}

-- -2 and 3 as an int32, and -1 as an int64.
abbrev pub some_packed_zigzag : PackedZigzag
some_packed_zigzag = record { values32 = (2 ^ 32 - 2) ∷ 3 ∷ []; values64 = (2 ^ 64 - 1) ∷ [] }

abbrev other_packed_zigzag : PackedZigzag
other_packed_zigzag = record { values32 = 9 ∷ []; values64 = [] }

abbrev room : List ℕ
room = replicate 20 7

some_packed_zigzag-IsPackedZigzag : IsPackedZigzag some_packed_zigzag
unfolding zigzag_encode32 zigzag_encode64 varint groups
some_packed_zigzag-IsPackedZigzag = record {
  values32_fit = (omega arith, (omega arith, tt));
  values32_short = omega arith;
  values64_fit = (omega arith, tt);
  values64_short = omega arith;
}

packed_zigzag_round_trip_example :
    (marshal_codec packed_zigzag (some some_packed_zigzag)
      ≡ ok (packed_zigzag_wire some_packed_zigzag))
    × (size_codec packed_zigzag (some some_packed_zigzag)
        ≡ length (packed_zigzag_wire some_packed_zigzag))
    × (marshal_to_codec packed_zigzag (some some_packed_zigzag) room ≡ (
        if ltb (length room) (length (packed_zigzag_wire some_packed_zigzag))
        then err (sentinel buffer_too_short)
        else ok (
          packed_zigzag_wire some_packed_zigzag
              ++ drop (length (packed_zigzag_wire some_packed_zigzag)) room,
          length (packed_zigzag_wire some_packed_zigzag),
        )))
    × (unmarshal_codec packed_zigzag
          (some other_packed_zigzag)
          (packed_zigzag_wire some_packed_zigzag)
        ≡ done some_packed_zigzag (length (packed_zigzag_wire some_packed_zigzag)))
packed_zigzag_round_trip_example =
    packed_zigzag_round_trip some_packed_zigzag other_packed_zigzag room
      some_packed_zigzag-IsPackedZigzag

-- The field says that it has one byte, and its element takes two.
packed_overrun :
    unmarshal_codec packed_zigzag (some other_packed_zigzag) (0x0a ∷ 1 ∷ 0x80 ∷ 0x01 ∷ [])
    ≡ done (record { values32 = 64 ∷ []; values64 = [] }) 4
unfolding unmarshal_codec packed_zigzag_unmarshal_internal packed_zigzag_switch packed_case
    packed_loop decode_fields field_loop read_varint slice_from or_fail decode_varint decode_loop
    zigzag_decode32
packed_overrun = refl
