-- ===== src/Runs/Nested.antt =====
-- Nested messages at concrete values.
use protoc_gen_codec.Base.{
  List, Option, [], arith, drop, if◌then◌else◌, length, ltb, none, refl, replicate, some, ℕ, ◌++◌,
  ◌-◌, ◌==◌, ◌^◌, ◌∷◌, ◌≡◌,
}
use protoc_gen_codec.Fixtures.Container.{Container, container}
use protoc_gen_codec.Fixtures.Container.Laws.{
  IsContainer, container_after, container_round_trip, container_wire,
}
use protoc_gen_codec.Fixtures.CrossContainer.{CrossContainer, cross_container}
use protoc_gen_codec.Fixtures.CrossContainer.Laws.{
  IsCrossContainer, cross_container_after, cross_container_round_trip, cross_container_wire,
}
use protoc_gen_codec.Fixtures.External.{External, external}
use protoc_gen_codec.Fixtures.External.Laws.{IsExternal, external_round_trip, external_wire}
use protoc_gen_codec.Fixtures.Inner.{Inner, zero_inner}
use protoc_gen_codec.Fixtures.Inner.Laws.{IsInner, inner_wire}
use protoc_gen_codec.Fixtures.ValueContainer.{ValueContainer, value_container}
use protoc_gen_codec.Fixtures.ValueContainer.Laws.{
  IsValueContainer, value_container_round_trip, value_container_wire,
}
use protoc_gen_codec.Message.{marshal_codec, marshal_to_codec, size_codec, unmarshal_codec}
use protoc_gen_codec.Message.Parts.Nested.{IsSent, pointer_after, pointers_after}
use protoc_gen_codec.Runtime.Errors.{buffer_too_short, err, ok, sentinel}
use protoc_gen_codec.Runtime.Varint.Groups.{groups, varint}
use protoc_gen_codec.Wire.Loop.{done}

-- "ab" and "c".
abbrev ab : List ℕ
ab = 97 ∷ 98 ∷ []

abbrev room : List ℕ
room = replicate 80 7

abbrev an_inner : Inner
an_inner = record { label = ab; count = 150 }

-- What is left in a backing array by an earlier decoding.
abbrev old_inner : Inner
old_inner = record { label = 99 ∷ []; count = 7 }

abbrev pub an_external : External
an_external = record { tag = ab; seq = 2 ^ 64 - 1 }

abbrev old_external : External
old_external = record { tag = 99 ∷ []; seq = 7 }

an_inner-IsInner : IsInner an_inner
an_inner-IsInner = record { label_short = omega arith; count_fits = omega arith }

zero_inner-IsInner : IsInner zero_inner
zero_inner-IsInner = record { label_short = omega arith; count_fits = omega arith }

an_external-IsExternal : IsExternal an_external
an_external-IsExternal = record { tag_short = omega arith; seq_fits = omega arith }

-- An empty element and a nil element stand among the children.
abbrev pub some_container : Container
some_container = record {
  name = ab;
  inner = some an_inner;
  children = some an_inner ∷ none ∷ some zero_inner ∷ [];
}

abbrev other_container : Container
other_container = record { name = []; inner = some old_inner; children = some old_inner ∷ [] }

abbrev pub container_slot : ℕ → Option Inner
container_slot k = if k == 0 then some old_inner else none

an_inner-IsSent : IsSent IsInner inner_wire an_inner
unfolding varint groups
an_inner-IsSent = (an_inner-IsInner, omega arith)

zero_inner-IsSent : IsSent IsInner inner_wire zero_inner
zero_inner-IsSent = (zero_inner-IsInner, omega arith)

some_container-IsContainer : IsContainer some_container
some_container-IsContainer = record {
  name_short = omega arith;
  inner_sent = an_inner-IsSent;
  children_sent = (an_inner-IsSent, (tt, (zero_inner-IsSent, tt)));
}

container_round_trip_example :
    (marshal_codec (container container_slot) (some some_container)
      ≡ ok (container_wire some_container))
    × (size_codec (container container_slot) (some some_container)
        ≡ length (container_wire some_container))
    × (marshal_to_codec (container container_slot) (some some_container) room ≡ (
        if ltb (length room) (length (container_wire some_container))
        then err (sentinel buffer_too_short)
        else ok (
          container_wire some_container ++ drop (length (container_wire some_container)) room,
          length (container_wire some_container),
        )))
    × (unmarshal_codec
          (container container_slot)
          (some other_container)
          (container_wire some_container)
        ≡ done (container_after some_container) (length (container_wire some_container)))
container_round_trip_example =
    container_round_trip container_slot some_container other_container room
      some_container-IsContainer

abbrev pub some_value_container : ValueContainer
some_value_container = record { name = ab; inner = zero_inner; items = an_inner ∷ zero_inner ∷ [] }

abbrev other_value_container : ValueContainer
other_value_container = record { name = []; inner = old_inner; items = old_inner ∷ [] }

abbrev pub value_slot : ℕ → Inner
value_slot k = if k == 0 then old_inner else zero_inner

some_value_container-IsValueContainer : IsValueContainer some_value_container
some_value_container-IsValueContainer = record {
  name_short = omega arith;
  inner_sent = zero_inner-IsSent;
  items_sent = (an_inner-IsSent, (zero_inner-IsSent, tt));
}

value_container_round_trip_example :
    (marshal_codec (value_container value_slot) (some some_value_container)
      ≡ ok (value_container_wire some_value_container))
    × (size_codec (value_container value_slot) (some some_value_container)
        ≡ length (value_container_wire some_value_container))
    × (marshal_to_codec (value_container value_slot) (some some_value_container) room ≡ (
        if ltb (length room) (length (value_container_wire some_value_container))
        then err (sentinel buffer_too_short)
        else ok (
          value_container_wire some_value_container
              ++ drop (length (value_container_wire some_value_container)) room,
          length (value_container_wire some_value_container),
        )))
    × (unmarshal_codec
          (value_container value_slot)
          (some other_value_container)
          (value_container_wire some_value_container)
        ≡ done some_value_container (length (value_container_wire some_value_container)))
value_container_round_trip_example =
    value_container_round_trip value_slot some_value_container other_value_container room
      some_value_container-IsValueContainer

an_external-IsSent : IsSent IsExternal external_wire an_external
unfolding varint groups
an_external-IsSent = (an_external-IsExternal, omega arith)

external_round_trip_example :
    (marshal_codec external (some an_external) ≡ ok (external_wire an_external))
    × (size_codec external (some an_external) ≡ length (external_wire an_external))
    × (marshal_to_codec external (some an_external) room ≡ (
        if ltb (length room) (length (external_wire an_external))
        then err (sentinel buffer_too_short)
        else ok (
          external_wire an_external ++ drop (length (external_wire an_external)) room,
          length (external_wire an_external),
        )))
    × (unmarshal_codec external (some old_external) (external_wire an_external)
        ≡ done an_external (length (external_wire an_external)))
external_round_trip_example =
    external_round_trip an_external old_external room an_external-IsExternal

abbrev pub some_cross_container : CrossContainer
some_cross_container = record {
  name = ab;
  item = none;
  items = an_external ∷ [];
  ptr_items = some an_external ∷ none ∷ [];
}

abbrev other_cross_container : CrossContainer
other_cross_container = record { name = []; item = some old_external; items = []; ptr_items = [] }

abbrev pub externals_slot : ℕ → External
externals_slot k = old_external

abbrev pub pointers_slot : ℕ → Option External
pointers_slot k = none

some_cross_container-IsCrossContainer : IsCrossContainer some_cross_container
some_cross_container-IsCrossContainer = record {
  name_short = omega arith;
  item_sent = tt;
  items_sent = (an_external-IsSent, tt);
  ptr_items_sent = (an_external-IsSent, (tt, tt));
}

cross_container_round_trip_example :
    (marshal_codec (cross_container externals_slot pointers_slot) (some some_cross_container)
      ≡ ok (cross_container_wire some_cross_container))
    × (size_codec (cross_container externals_slot pointers_slot) (some some_cross_container)
        ≡ length (cross_container_wire some_cross_container))
    × (marshal_to_codec
          (cross_container externals_slot pointers_slot)
          (some some_cross_container)
          room
        ≡ (if ltb (length room) (length (cross_container_wire some_cross_container))
            then err (sentinel buffer_too_short)
            else ok (
              cross_container_wire some_cross_container
                  ++ drop (length (cross_container_wire some_cross_container)) room,
              length (cross_container_wire some_cross_container),
            )))
    × (unmarshal_codec
          (cross_container externals_slot pointers_slot)
          (some other_cross_container)
          (cross_container_wire some_cross_container)
        ≡ done
            (cross_container_after some_cross_container)
            (length (cross_container_wire some_cross_container)))
cross_container_round_trip_example =
    cross_container_round_trip externals_slot pointers_slot some_cross_container
      other_cross_container room some_cross_container-IsCrossContainer

-- What is read back of `some_container`: the nil element is gone, the empty one is kept.
container_after_run :
    container_after some_container
    ≡ record some_container { children = some an_inner ∷ some zero_inner ∷ [] }
unfolding container_after pointer_after pointers_after varint groups
container_after_run = refl

-- A pointer to an empty message is read back as nil.
empty_inner_run :
    container_after (record some_container { inner = some zero_inner })
    ≡ record some_container { inner = none; children = some an_inner ∷ some zero_inner ∷ [] }
unfolding container_after pointer_after pointers_after varint groups
empty_inner_run = refl
