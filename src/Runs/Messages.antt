-- ===== src/Runs/Messages.antt =====
-- The messages at concrete values.
use protoc_gen_codec.Base.{
  List, [], arith, drop, false, if◌then◌else◌, length, ltb, none, replicate, some, true, ℕ, ◌++◌,
  ◌-◌, ◌^◌, ◌∷◌, ◌≡◌,
}
use protoc_gen_codec.Fixtures.BytesPool.{BytesPool}
use protoc_gen_codec.Fixtures.Inner.{Inner, inner}
use protoc_gen_codec.Fixtures.Inner.Laws.{IsInner, inner_round_trip, inner_wire}
use protoc_gen_codec.Fixtures.Minimal.{Minimal}
use protoc_gen_codec.Fixtures.NumericOnly.{NumericOnly, numeric_only}
use protoc_gen_codec.Fixtures.NumericOnly.Laws.{
  IsNumericOnly, numeric_only_round_trip, numeric_only_wire,
}
use protoc_gen_codec.Fixtures.TypedStrings.{TypedStrings, typed_strings}
use protoc_gen_codec.Fixtures.TypedStrings.Laws.{
  IsTypedStrings, typed_strings_round_trip, typed_strings_wire,
}
use protoc_gen_codec.Message.{marshal_codec, marshal_to_codec, size_codec, unmarshal_codec}
use protoc_gen_codec.Runtime.Errors.{buffer_too_short, err, ok, sentinel}
use protoc_gen_codec.Wire.Loop.{done}

-- "ab" and "c".
abbrev ab : List ℕ
ab = 97 ∷ 98 ∷ []

abbrev digest : List ℕ
digest = 5 ∷ replicate 31 0

abbrev room : List ℕ
room = replicate 80 7

abbrev pub some_inner : Inner
some_inner = record { label = ab; count = 150 }

abbrev other_inner : Inner
other_inner = record { label = []; count = 0 }

some_inner-IsInner : IsInner some_inner
some_inner-IsInner = record { label_short = omega arith; count_fits = omega arith }

inner_round_trip_example :
    (marshal_codec inner (some some_inner) ≡ ok (inner_wire some_inner))
    × (size_codec inner (some some_inner) ≡ length (inner_wire some_inner))
    × (marshal_to_codec inner (some some_inner) room ≡ (
        if ltb (length room) (length (inner_wire some_inner))
        then err (sentinel buffer_too_short)
        else ok (
          inner_wire some_inner ++ drop (length (inner_wire some_inner)) room,
          length (inner_wire some_inner),
        )))
    × (unmarshal_codec inner (some other_inner) (inner_wire some_inner)
        ≡ done some_inner (length (inner_wire some_inner)))
inner_round_trip_example = inner_round_trip some_inner other_inner room some_inner-IsInner

abbrev pub some_minimal : Minimal
some_minimal = record { id = ab }

abbrev pub some_bytes_pool : BytesPool
some_bytes_pool = record { payload = ab }

abbrev pub some_typed_strings : TypedStrings
some_typed_strings = record { id = ab; tags = ab ∷ [] ∷ [] }

abbrev other_typed_strings : TypedStrings
other_typed_strings = record { id = []; tags = [] }

some_typed_strings-IsTypedStrings : IsTypedStrings some_typed_strings
some_typed_strings-IsTypedStrings = record {
  id_short = omega arith;
  tags_short = (omega arith, (omega arith, tt));
}

typed_strings_round_trip_example :
    (marshal_codec typed_strings (some some_typed_strings)
      ≡ ok (typed_strings_wire some_typed_strings))
    × (size_codec typed_strings (some some_typed_strings)
        ≡ length (typed_strings_wire some_typed_strings))
    × (marshal_to_codec typed_strings (some some_typed_strings) room ≡ (
        if ltb (length room) (length (typed_strings_wire some_typed_strings))
        then err (sentinel buffer_too_short)
        else ok (
          typed_strings_wire some_typed_strings
              ++ drop (length (typed_strings_wire some_typed_strings)) room,
          length (typed_strings_wire some_typed_strings),
        )))
    × (unmarshal_codec typed_strings
          (some other_typed_strings)
          (typed_strings_wire some_typed_strings)
        ≡ done some_typed_strings (length (typed_strings_wire some_typed_strings)))
typed_strings_round_trip_example =
    typed_strings_round_trip some_typed_strings other_typed_strings room
      some_typed_strings-IsTypedStrings

-- H is set to -1, I to false, and J is nil; the receiver has other optional fields.
abbrev pub some_numeric_only : NumericOnly
some_numeric_only = record {
  a = 150;
  b = 1;
  c = 2 ^ 64 - 1;
  d = 9;
  e = true;
  f = 2 ^ 32 - 2;
  g = 3;
  h = some (2 ^ 32 - 1);
  i = some false;
  j = none;
}

abbrev other_numeric_only : NumericOnly
other_numeric_only = record {
  a = 1;
  b = 0;
  c = 0;
  d = 0;
  e = false;
  f = 0;
  g = 0;
  h = none;
  i = some true;
  j = some 5;
}

some_numeric_only-IsNumericOnly : IsNumericOnly some_numeric_only
some_numeric_only-IsNumericOnly = record {
  a_fits = omega arith;
  b_fits = omega arith;
  c_fits = omega arith;
  d_fits = omega arith;
  f_fits = omega arith;
  g_fits = omega arith;
  h_fits = omega arith;
  j_fits = tt;
}

numeric_only_round_trip_example :
    (marshal_codec numeric_only (some some_numeric_only) ≡ ok (numeric_only_wire some_numeric_only))
    × (size_codec numeric_only (some some_numeric_only)
        ≡ length (numeric_only_wire some_numeric_only))
    × (marshal_to_codec numeric_only (some some_numeric_only) room ≡ (
        if ltb (length room) (length (numeric_only_wire some_numeric_only))
        then err (sentinel buffer_too_short)
        else ok (
          numeric_only_wire some_numeric_only
              ++ drop (length (numeric_only_wire some_numeric_only)) room,
          length (numeric_only_wire some_numeric_only),
        )))
    × (unmarshal_codec numeric_only (some other_numeric_only) (numeric_only_wire some_numeric_only)
        ≡ done some_numeric_only (length (numeric_only_wire some_numeric_only)))
numeric_only_round_trip_example =
    numeric_only_round_trip some_numeric_only other_numeric_only room
      some_numeric_only-IsNumericOnly
