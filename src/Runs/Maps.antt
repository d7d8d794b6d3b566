-- ===== src/Runs/Maps.antt =====
-- Maps, a oneof, and the scan for repeated messages at concrete values.
use mathlib.Core.List.{Permᴰ}
use mathlib.Core.List.Permᴰ
use protoc_gen_codec.Base.{
  List, [], arith, drop, false, if◌then◌else◌, inl, length, ltb, none, refl, replicate, some, true,
  ℕ, ◌*◌, ◌++◌, ◌-◌, ◌^◌, ◌∷◌, ◌≡◌, ◌≤◌,
}
use protoc_gen_codec.Fixtures.BoolMapHolder.{BoolMapHolder, bool_eq, bool_map_holder}
use protoc_gen_codec.Fixtures.BoolMapHolder.Laws.{
  IsBoolMapHolder, bool_map_holder_after, bool_map_holder_round_trip, bool_map_holder_wire,
}
use protoc_gen_codec.Fixtures.Container.{Container, container}
use protoc_gen_codec.Fixtures.Container.Laws.{IsContainer, container_wire}
use protoc_gen_codec.Fixtures.Container.Room.{container_room}
use protoc_gen_codec.Fixtures.Inner.{zero_inner}
use protoc_gen_codec.Fixtures.Inner.Laws.{IsInner, inner_wire}
use protoc_gen_codec.Fixtures.MapHolder.{MapHolder, map_holder}
use protoc_gen_codec.Fixtures.MapHolder.Determined.{map_holder_deterministic}
use protoc_gen_codec.Fixtures.MapHolder.Laws.{
  IsMapHolder, map_holder_after, map_holder_round_trip, map_holder_wire,
}
use protoc_gen_codec.Fixtures.OneofPayload.{OneofPayload, oneof_payload}
use protoc_gen_codec.Fixtures.OneofPayload.Kept.{oneof_payload_kind_kept}
use protoc_gen_codec.Fixtures.OneofPayload.Laws.{
  IsOneofPayload, branch_read, labelled, oneof_payload_after, oneof_payload_round_trip,
  oneof_payload_wire,
}
use protoc_gen_codec.Message.{marshal_codec, marshal_to_codec, size_codec, unmarshal_codec}
use protoc_gen_codec.Message.Kinds.Bytes.{bytes_wire}
use protoc_gen_codec.Message.Maps.{
  by_key, bytes_eq, bytes_leq, insert_string, map_get, sort_strings,
}
use protoc_gen_codec.Message.Parts.Nested.{IsSent}
use protoc_gen_codec.Message.PreScan.{pre_count, pre_switch}
use protoc_gen_codec.Message.PreScan.Bounds.{pre_count_bounded}
use protoc_gen_codec.Runtime.Errors.{buffer_too_short, err, ok, sentinel}
use protoc_gen_codec.Runtime.Varint.{decode_loop, decode_varint}
use protoc_gen_codec.Runtime.Varint.Groups.{groups, varint}
use protoc_gen_codec.Wire.Loop.{decode_fields, done, field_loop}
use protoc_gen_codec.Wire.Read.{or_fail, read_varint, slice_from}

-- "ab" and "c".
abbrev ab : List ℕ
ab = 97 ∷ 98 ∷ []

abbrev just_c : List ℕ
just_c = 99 ∷ []

abbrev room : List ℕ
room = replicate 80 7

-- A `range` visits "c" before "ab" here.
abbrev pub some_maps : MapHolder
some_maps = record { attrs = (just_c, ab) ∷ (ab, []) ∷ []; counts = (ab, 2 ^ 64 - 1) ∷ [] }

abbrev same_maps : MapHolder
same_maps = record { attrs = (ab, []) ∷ (just_c, ab) ∷ []; counts = (ab, 2 ^ 64 - 1) ∷ [] }

abbrev other_maps : MapHolder
other_maps = record { attrs = (ab, ab) ∷ []; counts = [] }

some_maps-IsMapHolder : IsMapHolder some_maps
unfolding bytes_eq varint groups
some_maps-IsMapHolder = record {
  attrs_sent =
      (((omega arith, omega arith), omega arith), (((omega arith, omega arith), omega arith), tt));
  attrs_distinct = ((refl, tt), (tt, tt));
  counts_sent = (((omega arith, omega arith), omega arith), tt);
  counts_distinct = (tt, tt);
}

abbrev pub some_flags : BoolMapHolder
some_flags = record { flags = (true, ab) ∷ (false, []) ∷ [] }

abbrev other_flags : BoolMapHolder
other_flags = record { flags = (true, just_c) ∷ [] }

some_flags-IsBoolMapHolder : IsBoolMapHolder some_flags
unfolding bool_eq varint groups
some_flags-IsBoolMapHolder = record {
  flags_sent = ((omega arith, omega arith), ((omega arith, omega arith), tt));
  flags_distinct = ((refl, tt), (tt, tt));
}

map_holder_round_trip_example :
    (marshal_codec map_holder (some some_maps) ≡ ok (map_holder_wire some_maps))
    × (size_codec map_holder (some some_maps) ≡ length (map_holder_wire some_maps))
    × (marshal_to_codec map_holder (some some_maps) room ≡ (
        if ltb (length room) (length (map_holder_wire some_maps))
        then err (sentinel buffer_too_short)
        else ok (
          map_holder_wire some_maps ++ drop (length (map_holder_wire some_maps)) room,
          length (map_holder_wire some_maps),
        )))
    × (unmarshal_codec map_holder (some other_maps) (map_holder_wire some_maps)
        ≡ done (map_holder_after some_maps) (length (map_holder_wire some_maps)))
    × Permᴰ (map_holder_after some_maps).attrs some_maps.attrs
    × Permᴰ (map_holder_after some_maps).counts some_maps.counts
map_holder_round_trip_example =
    map_holder_round_trip some_maps other_maps room some_maps-IsMapHolder

map_holder_deterministic_example :
    (size_codec map_holder (some some_maps) ≡ size_codec map_holder (some same_maps))
    × (marshal_codec map_holder (some some_maps) ≡ marshal_codec map_holder (some same_maps))
map_holder_deterministic_example =
    map_holder_deterministic some_maps same_maps some_maps-IsMapHolder.attrs_distinct
      some_maps-IsMapHolder.counts_distinct (Permᴰ.swap refl refl) (Permᴰ.refl _)

bool_map_holder_round_trip_example :
    (marshal_codec bool_map_holder (some some_flags) ≡ ok (bool_map_holder_wire some_flags))
    × (size_codec bool_map_holder (some some_flags) ≡ length (bool_map_holder_wire some_flags))
    × (marshal_to_codec bool_map_holder (some some_flags) room ≡ (
        if ltb (length room) (length (bool_map_holder_wire some_flags))
        then err (sentinel buffer_too_short)
        else ok (
          bool_map_holder_wire some_flags ++ drop (length (bool_map_holder_wire some_flags)) room,
          length (bool_map_holder_wire some_flags),
        )))
    × (unmarshal_codec bool_map_holder (some other_flags) (bool_map_holder_wire some_flags)
        ≡ done (bool_map_holder_after some_flags) (length (bool_map_holder_wire some_flags)))
    × Permᴰ (bool_map_holder_after some_flags).flags some_flags.flags
bool_map_holder_round_trip_example =
    bool_map_holder_round_trip some_flags other_flags room some_flags-IsBoolMapHolder

-- The strings come back in the order of their bytes.
map_holder_after_run : (map_holder_after some_maps).attrs ≡ (ab, []) ∷ (just_c, ab) ∷ []
unfolding map_holder_after by_key sort_strings insert_string bytes_leq map_get bytes_eq
map_holder_after_run = refl

-- The nested branch, and a text that is set but not sent.
abbrev pub some_oneof : OneofPayload
some_oneof = record {
  label = ab;
  kind = 12;
  text = just_c;
  number = 0;
  nested = record { label = ab; count = 150 };
  blob = [];
  amount = 0;
}

abbrev other_oneof : OneofPayload
other_oneof = record {
  label = [];
  kind = 10;
  text = just_c;
  number = 7;
  nested = zero_inner;
  blob = [];
  amount = 3;
}

abbrev unset_oneof : OneofPayload
unset_oneof = labelled ab 0

some_oneof-IsOneofPayload : IsOneofPayload some_oneof
unfolding varint groups
some_oneof-IsOneofPayload = record {
  label_short = omega arith;
  text_short = omega arith;
  number_fits = omega arith;
  nested_sent = (record { label_short = omega arith; count_fits = omega arith }, omega arith);
  blob_short = omega arith;
  amount_fits = omega arith;
}

unset_oneof-IsOneofPayload : IsOneofPayload unset_oneof
unset_oneof-IsOneofPayload = record {
  label_short = omega arith;
  text_short = omega arith;
  number_fits = omega arith;
  nested_sent = (record { label_short = omega arith; count_fits = omega arith }, omega arith);
  blob_short = omega arith;
  amount_fits = omega arith;
}

oneof_payload_round_trip_example :
    (marshal_codec oneof_payload (some some_oneof) ≡ ok (oneof_payload_wire some_oneof))
    × (size_codec oneof_payload (some some_oneof) ≡ length (oneof_payload_wire some_oneof))
    × (marshal_to_codec oneof_payload (some some_oneof) room ≡ (
        if ltb (length room) (length (oneof_payload_wire some_oneof))
        then err (sentinel buffer_too_short)
        else ok (
          oneof_payload_wire some_oneof ++ drop (length (oneof_payload_wire some_oneof)) room,
          length (oneof_payload_wire some_oneof),
        )))
    × (unmarshal_codec oneof_payload (some other_oneof) (oneof_payload_wire some_oneof)
        ≡ done (oneof_payload_after some_oneof) (length (oneof_payload_wire some_oneof)))
oneof_payload_round_trip_example =
    oneof_payload_round_trip some_oneof other_oneof room some_oneof-IsOneofPayload
      (omega arith, omega arith)

oneof_payload_kind_kept_example :
    (marshal_codec oneof_payload (some unset_oneof) ≡ ok (bytes_wire 0x0a ab))
    × (size_codec oneof_payload (some unset_oneof) ≡ length (bytes_wire 0x0a ab))
    × (unmarshal_codec oneof_payload (some other_oneof) (bytes_wire 0x0a ab)
        ≡ done (labelled ab 10) (length (bytes_wire 0x0a ab)))
oneof_payload_kind_kept_example =
    oneof_payload_kind_kept unset_oneof other_oneof unset_oneof-IsOneofPayload (inl (omega arith))

-- The text of the other branch is not read back.
oneof_payload_after_run : oneof_payload_after some_oneof ≡ record some_oneof { text = [] }
unfolding oneof_payload_after branch_read
oneof_payload_after_run = refl

abbrev some_container : Container
some_container = record {
  name = ab;
  inner = none;
  children = some zero_inner ∷ none ∷ some zero_inner ∷ [];
}

some_container-IsContainer : IsContainer some_container
some_container-IsContainer = record {
  name_short = omega arith;
  inner_sent = tt;
  children_sent = (empty, (tt, (empty, tt)));
}
  where
    empty : IsSent IsInner inner_wire zero_inner
    empty = (record { label_short = omega arith; count_fits = omega arith }, omega arith)

container_room_example :
    (x : Container) × (unmarshal_codec
        (container (λ k. none))
        (some some_container)
        (container_wire some_container)
      ≡ done x (length (container_wire some_container)))
    × (pre_count 3 (container_wire some_container) ≡ some (length x.children))
container_room_example =
    container_room (λ k. none) some_container some_container some_container-IsContainer

-- An element whose length is greater than what is left of the data.
pre_count_bounded_example :
    (count : ℕ) × (pre_count 3 (0x1a ∷ 9 ∷ 0x1a ∷ 0 ∷ []) ≡ some count) × (2 * count ≤ 4)
pre_count_bounded_example = pre_count_bounded 3 (0x1a ∷ 9 ∷ 0x1a ∷ 0 ∷ [])

-- The scan goes on behind the length that is too great, and counts what looks like an element there.
pre_count_run : pre_count 3 (0x1a ∷ 9 ∷ 0x1a ∷ 0 ∷ []) ≡ some 1
unfolding pre_count pre_switch decode_fields field_loop read_varint slice_from or_fail decode_varint
    decode_loop
pre_count_run = refl
