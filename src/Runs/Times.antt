-- ===== src/Runs/Times.antt =====
-- Instants and durations at concrete values.
use protoc_gen_codec.Base.{
  List, arith, drop, false, if◌then◌else◌, length, ltb, replicate, some, ℕ, ◌++◌, ◌-◌, ◌^◌, ◌≡◌,
}
use protoc_gen_codec.Fixtures.TimeHolder.{TimeHolder, time_holder, zero_field_time}
use protoc_gen_codec.Fixtures.TimeHolder.Laws.{
  IsTimeHolder, time_holder_after, time_holder_round_trip, time_holder_wire,
}
use protoc_gen_codec.Message.{marshal_codec, marshal_to_codec, size_codec, unmarshal_codec}
use protoc_gen_codec.Runtime.Errors.{buffer_too_short, err, ok, sentinel}
use protoc_gen_codec.Wire.Loop.{done}

abbrev room : List ℕ
room = replicate 80 7

-- A time in another location than UTC, and minus one nanosecond.
abbrev pub some_times : TimeHolder
some_times = record {
  created_at = record { instant = record { unix = 1700000000; nanosecond = 5 }; plain = false };
  timeout = 2 ^ 64 - 1;
}

abbrev other_times : TimeHolder
other_times = record { created_at = zero_field_time; timeout = 7 }

some_times-IsTimeHolder : IsTimeHolder some_times
some_times-IsTimeHolder = record {
  created_at_valid = record { unix_fits = omega arith; below_second = omega arith };
  timeout_fits = omega arith;
}

time_holder_round_trip_example :
    (marshal_codec time_holder (some some_times) ≡ ok (time_holder_wire some_times))
    × (size_codec time_holder (some some_times) ≡ length (time_holder_wire some_times))
    × (marshal_to_codec time_holder (some some_times) room ≡ (
        if ltb (length room) (length (time_holder_wire some_times))
        then err (sentinel buffer_too_short)
        else ok (
          time_holder_wire some_times ++ drop (length (time_holder_wire some_times)) room,
          length (time_holder_wire some_times),
        )))
    × (unmarshal_codec time_holder (some other_times) (time_holder_wire some_times)
        ≡ done (time_holder_after some_times) (length (time_holder_wire some_times)))
time_holder_round_trip_example =
    time_holder_round_trip some_times other_times room some_times-IsTimeHolder
