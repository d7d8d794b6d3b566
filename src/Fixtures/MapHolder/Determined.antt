-- ===== src/Fixtures/MapHolder/Determined.antt =====
-- The order in which Go ranges over a map does not show on the wire.
use mathlib.Core.List.{Permᴰ}
use protoc_gen_codec.Base.{[], arith, refl, some, ◌≡◌}
use protoc_gen_codec.Fixtures.MapHolder.{
  MapHolder, attrs_entry, counts_entry, map_holder, map_holder_marshal_internal, map_holder_size,
}
use protoc_gen_codec.Message.{marshal_codec, size_codec}
use protoc_gen_codec.Message.Kinds.Maps.{size_entry, size_map_field}
use protoc_gen_codec.Message.Maps.{bytes_eq}
use protoc_gen_codec.Message.Maps.Laws.{Distinct, sum_of-Permᴰ}
use protoc_gen_codec.Message.Maps.Sorted.{by_key-same}

-- Two values of `MapHolder` whose maps have the same entries, in whatever orders a `range` visits
-- them, have the same size and the same bytes.
pub map_holder_deterministic :
    (m m' : MapHolder)
    → Distinct bytes_eq m.attrs
    → Distinct bytes_eq m.counts
    → Permᴰ m.attrs m'.attrs
    → Permᴰ m.counts m'.counts
    → (size_codec map_holder (some m) ≡ size_codec map_holder (some m'))
      × (marshal_codec map_holder (some m) ≡ marshal_codec map_holder (some m'))
unfolding size_codec marshal_codec map_holder_size map_holder_marshal_internal size_map_field
map_holder_deterministic m m' da dc pa pc =
    let attrs_size = sum_of-Permᴰ (size_entry attrs_entry) pa in
    let counts_size = sum_of-Permᴰ (size_entry counts_entry) pc in
    (
      omega (arith, attrs_size, counts_size),
      rw
          (
            attrs_size,
            counts_size,
            by_key-same [] m.attrs m'.attrs pa da,
            by_key-same 0 m.counts m'.counts pc dc,
          )
          refl,
    )
