-- ===== src/Fixtures/TimeHolder.antt =====
-- The type `TimeHolder` of lang/go/integration/fixture.go and its methods in fixture.codec.go: an instant
-- and a duration, with the bodies of google.protobuf.Timestamp and Duration.
pub mod Laws
use protoc_gen_codec.Base.{
  Bool, List, Option, [], if◌then◌else◌, length, none, not, some, true, ℕ, ◌&&◌, ◌+◌, ◌==◌,
}
use protoc_gen_codec.Message.{Methods}
use protoc_gen_codec.Message.Kinds.{bad_tag, skip_case}
use protoc_gen_codec.Message.Kinds.Nested.{emit_message, message_case, size_message}
use protoc_gen_codec.Runtime.Errors.{Res, err, fault, ok}
use protoc_gen_codec.Runtime.Time.{
  Time, decode_duration, decode_timestamp, encode_duration, encode_timestamp, is_zero,
  size_duration, size_timestamp, zero_time,
}
use protoc_gen_codec.Wire.Emit.{Writer, when, ◌⨾◌}
use protoc_gen_codec.Wire.Loop.{Run, Switch, decode_fields, done, failed, panicked, spent}

-- A time.Time that a field holds. It is `plain` where it is in UTC and has no reading of the
-- monotonic clock: the instant alone decides then what `==` says of it.
pub record FieldTime : Type 0 where
  pub instant : Time
  pub plain : Bool

-- A time.Duration is its bit pattern.
pub record TimeHolder : Type 0 where
  pub created_at : FieldTime
  pub timeout : ℕ

-- `time.Time{}`
abbrev pub zero_field_time : FieldTime
zero_field_time = record { instant = zero_time; plain = true }

-- `m.CreatedAt != zero`
unfoldable pub is_set : FieldTime → Bool
is_set t = not (t.plain && is_zero t.instant)

-- What a decoder of a whole body returns, as the end of a decoding into `elem`.
abbrev pub whole : {A : Type 0} → List ℕ → A → Option (Res A) → Run A
whole body elem none = spent
whole body elem (some (ok a)) = done a (length body)
whole body elem (some (err e)) = failed e elem
whole body elem (some fault) = panicked

unfoldable pub in_utc : Option (Res Time) → Option (Res FieldTime)
in_utc none = none
in_utc (some (ok t)) = some (ok (record { instant = t; plain = true }))
in_utc (some (err e)) = some (err e)
in_utc (some fault) = some fault

-- The functions of the package codec, in the places of the methods of a message type.
abbrev pub timestamp : Methods FieldTime
timestamp = record {
  size = λ t. size_timestamp t.instant;
  marshal_internal = λ t. encode_timestamp t.instant;
  unmarshal_internal = λ body slab slab_off t. whole body t (in_utc (decode_timestamp body));
  slab = λ bs. [];
  reset = λ t. zero_field_time;
}

abbrev pub duration : Methods ℕ
duration = record {
  size = size_duration;
  marshal_internal = encode_duration;
  unmarshal_internal = λ body slab slab_off d. whole body d (decode_duration body);
  slab = λ bs. [];
  reset = λ d. 0;
}

unfoldable pub time_holder_size : TimeHolder → ℕ
time_holder_size m =
    (if is_set m.created_at then size_message timestamp m.created_at else 0)
    + (if not (m.timeout == 0) then size_message duration m.timeout else 0)

unfoldable pub time_holder_marshal_internal : TimeHolder → Writer
time_holder_marshal_internal m buf =
    (when (is_set m.created_at) (emit_message timestamp 0x0a m.created_at)
        ⨾ when (not (m.timeout == 0)) (emit_message duration 0x12 m.timeout))
      buf 0

unfoldable pub time_holder_reset : TimeHolder → TimeHolder
time_holder_reset m = record m { created_at = zero_field_time; timeout = 0 }

unfoldable pub time_holder_switch : List ℕ → List ℕ → ℕ → Switch TimeHolder
time_holder_switch body slab slab_off num wire_type i m =
    if num == 1
    then message_case timestamp "CreatedAt" 1 body slab slab_off wire_type i m m.created_at
        (λ t. record m { created_at = t })
    else if num == 2
    then message_case duration "Timeout" 2 body slab slab_off wire_type i m m.timeout
        (λ d. record m { timeout = d })
    else skip_case body wire_type i m

unfoldable pub time_holder_unmarshal_internal : List ℕ → List ℕ → ℕ → TimeHolder → Run TimeHolder
time_holder_unmarshal_internal body slab slab_off m =
    decode_fields bad_tag body (time_holder_switch body slab slab_off)
      (record m { created_at = zero_field_time; timeout = 0 })

-- There are no strings in this type: `UnmarshalCodec` hands on "".
abbrev pub time_holder : Methods TimeHolder
time_holder = record {
  size = time_holder_size;
  marshal_internal = time_holder_marshal_internal;
  unmarshal_internal = time_holder_unmarshal_internal;
  slab = λ bs. [];
  reset = time_holder_reset;
}
