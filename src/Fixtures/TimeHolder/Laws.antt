-- ===== src/Fixtures/TimeHolder/Laws.antt =====
-- `TimeHolder` on the wire: its methods are lawful.
use protoc_gen_codec.Base.{
  Bool-cases, List, Option, [], ap, arith, drop, false, if◌then◌else◌, inl, inr, length,
  length-append, ltb, none, not, refl, some, sym, true, ℕ, ◌++◌, ◌<◌, ◌==◌, ◌^◌, ◌∷◌, ◌≡◌, ◌≤◌,
}
use protoc_gen_codec.Fixtures.TimeHolder.{
  FieldTime, TimeHolder, duration, in_utc, is_set, time_holder, time_holder_marshal_internal,
  time_holder_size, time_holder_switch, time_holder_unmarshal_internal, timestamp, whole,
  zero_field_time,
}
use protoc_gen_codec.Message.{marshal_codec, marshal_to_codec, size_codec, unmarshal_codec}
use protoc_gen_codec.Message.Kinds.{bad_tag}
use protoc_gen_codec.Message.Kinds.Bytes.{IsShort, element_wire}
use protoc_gen_codec.Message.Kinds.Nested.{emit_message, message_case, size_message}
use protoc_gen_codec.Message.Kinds.Nested.Laws.{Ends-message_case}
use protoc_gen_codec.Message.Laws.{EncodesAt, Lawful, codec_lem}
use protoc_gen_codec.Message.Parts.{Part, Part-to, ◌⊕◌}
use protoc_gen_codec.Message.Parts.Nested.{element_part}
use protoc_gen_codec.Message.Parts.Numeric.{absent_part}
use protoc_gen_codec.Message.Parts.Stays.{on◌stays◌or◌, skip-Stays}
use protoc_gen_codec.Runtime.Errors.{Res, buffer_too_short, err, fault, ok, sentinel}
use protoc_gen_codec.Runtime.Time.{
  Time, decode_duration, decode_timestamp, duration_nanos, duration_secs, encode_duration,
  encode_timestamp, is_zero, sign_extend, size_duration, size_timestamp,
}
use protoc_gen_codec.Runtime.Time.Ends.{Answers, decode_ts-Answers}
use protoc_gen_codec.Runtime.Time.RoundTrip.{
  IsTime, after_trip, decode_empty, duration_parts, nanos_fit, time_parts, zero_trip,
}
use protoc_gen_codec.Runtime.Time.Wire.{
  Writes-encode_ts_body, decode_ts_body-ts_wire, length-ts_wire, sign_extend-lt, ts_wire,
}
use protoc_gen_codec.Runtime.Varint.{IsU64}
use protoc_gen_codec.Runtime.Varint.Decode.{decode_varint_bounds}
use protoc_gen_codec.Runtime.Varint.Groups.{varint}
use protoc_gen_codec.Runtime.Varint.RoundTrip.{decode_varint-varint}
use protoc_gen_codec.Wire.Emit.{when, ◌⨾◌}
use protoc_gen_codec.Wire.Emit.Laws.{Writes-Appends}
use protoc_gen_codec.Wire.Loop.{done}
use protoc_gen_codec.Wire.Loop.Laws.{decode_fields_lem}
use protoc_gen_codec.Wire.Loop.Safe.{EndsAll, EndsAt, decode_fields_ends}
use protoc_gen_codec.Wire.Slab.{InSlab}

-- The values that the Go types of the fields admit.
pub record IsTimeHolder (m : TimeHolder) : Type 0 where
  pub created_at_valid : IsTime m.created_at.instant
  pub timeout_fits : IsU64 m.timeout

unfoldable pub timestamp_wire : Time → List ℕ
timestamp_wire t = if is_zero t then [] else ts_wire t.unix t.nanosecond

abbrev pub duration_wire : ℕ → List ℕ
duration_wire d = ts_wire (duration_secs d) (duration_nanos d)

abbrev pub time_holder_wire : TimeHolder → List ℕ
time_holder_wire m =
    (if is_set m.created_at then element_wire 0x0a (timestamp_wire m.created_at.instant) else [])
    ++ (if not (m.timeout == 0) then element_wire 0x12 (duration_wire m.timeout) else [])

-- What is read back of a time: the instant in UTC, and the zero time of the Unix epoch.
abbrev pub field_time_after : FieldTime → FieldTime
field_time_after t = record { instant = after_trip t.instant; plain = true }

unfoldable pub time_holder_after : TimeHolder → TimeHolder
time_holder_after m = record m { created_at = field_time_after m.created_at }

varint_short : (x : ℕ) → IsU64 x → length (varint x) ≤ 10
varint_short x h =
    let bounds =
      decode_varint_bounds (varint x ++ []) (x, length (varint x)) (decode_varint-varint x [] h) in
    omega (arith, bounds)

ts_wire-IsShort : (secs nanos : ℕ) → IsU64 secs → nanos < 2 ^ 32 → IsShort (ts_wire secs nanos)
unfolding ts_wire
ts_wire-IsShort secs nanos hs hn = ground (
  arith,
  varint_short secs hs,
  varint_short (sign_extend nanos) (sign_extend-lt nanos hn),
  length-append (if not (secs == 0) then 0x08 ∷ varint secs else [])
      (if not (nanos == 0) then 0x10 ∷ varint (sign_extend nanos) else []),
)

timestamp_wire-IsShort : (t : Time) → IsTime t → IsShort (timestamp_wire t)
unfolding timestamp_wire
timestamp_wire-IsShort t v =
    ground (arith, ts_wire-IsShort t.unix t.nanosecond v.unix_fits (nanos_fit t v))

timestamp_encodes :
    (t : FieldTime)
    → IsTime t.instant
    → EncodesAt timestamp t (timestamp_wire t.instant) (field_time_after t)
unfolding timestamp_wire size_timestamp encode_timestamp in_utc
timestamp_encodes t v = elim (Bool-cases (is_zero t.instant)) [
  | inl zero_case ↦ record {
    size_at = rw zero_case refl;
    writes_at = λ buf h. rw zero_case refl;
    reads_at = λ r slab slab_off inside.
        rw (zero_case, decode_empty)
          (ap (λ (u : Time). done (record { instant = u; plain = true }) 0)
            (zero_trip t.instant zero_case));
  }
  | inr other ↦
      let nanos = nanos_fit t.instant v in
      record {
        size_at =
            rw other (sym (length-ts_wire t.instant.unix t.instant.nanosecond v.unix_fits nanos));
        writes_at =
            rw other (Writes-encode_ts_body t.instant.unix t.instant.nanosecond v.unix_fits nanos);
        reads_at = λ r slab slab_off inside.
            unfold decode_timestamp in
            rw
              (
                other,
                decode_ts_body-ts_wire t.instant.unix t.instant.nanosecond v.unix_fits nanos,
                time_parts t.instant v,
              )
              refl;
      }
]

duration_encodes : (d : ℕ) → IsU64 d → EncodesAt duration d (duration_wire d) d
unfolding size_duration encode_duration decode_duration
duration_encodes d h =
    let (hs, hn, back) = duration_parts d h in
    record {
      size_at = sym (length-ts_wire (duration_secs d) (duration_nanos d) hs hn);
      writes_at = Writes-encode_ts_body (duration_secs d) (duration_nanos d) hs hn;
      reads_at = λ r slab slab_off inside.
          rw (decode_ts_body-ts_wire (duration_secs d) (duration_nanos d) hs hn, back) refl;
    }

-- A time that is not sent is the zero time.
unset_time : (t : FieldTime) → is_set t ≡ false → is_zero t.instant ≡ true
unfolding is_set
unset_time t h = ground (arith, h)

created_at_part :
    (m : TimeHolder)
    → IsTime m.created_at.instant
    → Part time_holder_switch
        (if is_set m.created_at then size_message timestamp m.created_at else 0)
        (when (is_set m.created_at) (emit_message timestamp 0x0a m.created_at))
        (if is_set m.created_at
          then element_wire 0x0a (timestamp_wire m.created_at.instant)
          else [])
        (record { created_at = zero_field_time; timeout = 0 })
        (record { created_at = field_time_after m.created_at; timeout = 0 })
unfolding time_holder_switch when
created_at_part m v = elim (Bool-cases (is_set m.created_at)) [
  | inl sent ↦ rw sent (
      element_part "CreatedAt" 1 (omega arith)
        (record { created_at = zero_field_time; timeout = 0 }) (λ off. zero_field_time)
        (λ t. record { created_at = t; timeout = 0 }) (timestamp_encodes m.created_at v)
        (timestamp_wire-IsShort m.created_at.instant v) (λ body slab slab_off i. refl))
  | inr absent ↦ rw absent (
      Part-to
        (ap
          (λ (u : Time). record { created_at = record { instant = u; plain = true }; timeout = 0 })
          (zero_trip m.created_at.instant (unset_time m.created_at absent)))
        absent_part)
]

timeout_part :
    (t : FieldTime) (d : ℕ)
    → IsU64 d
    → Part time_holder_switch
        (if not (d == 0) then size_message duration d else 0)
        (when (not (d == 0)) (emit_message duration 0x12 d))
        (if not (d == 0) then element_wire 0x12 (duration_wire d) else [])
        (record { created_at = t; timeout = 0 })
        (record { created_at = t; timeout = d })
unfolding time_holder_switch when
timeout_part t d v =
    let (hs, hn, _) = duration_parts d v in
    elim (Bool-cases (not (d == 0))) [
      | inl sent ↦ rw sent (
          element_part "Timeout" 2 (omega arith) (record { created_at = t; timeout = 0 }) (λ off. 0)
            (λ x. record { created_at = t; timeout = x }) (duration_encodes d v)
            (ts_wire-IsShort (duration_secs d) (duration_nanos d) hs hn)
            (λ body slab slab_off i. refl))
      | inr absent ↦ rw absent (
          Part-to (ap (λ (x : ℕ). record { created_at = t; timeout = x }) (ground (arith, absent)))
            absent_part)
    ]

time_holder_parts :
    (m : TimeHolder)
    → IsTimeHolder m
    → Part time_holder_switch
        (time_holder_size m)
        (when (is_set m.created_at) (emit_message timestamp 0x0a m.created_at)
          ⨾ when (not (m.timeout == 0)) (emit_message duration 0x12 m.timeout))
        (time_holder_wire m)
        (record { created_at = zero_field_time; timeout = 0 })
        (time_holder_after m)
unfolding time_holder_size time_holder_after
time_holder_parts m v =
    created_at_part m v.created_at_valid
    ⊕ timeout_part (field_time_after m.created_at) m.timeout v.timeout_fits

-- A body that is decoded to a value or an error is decoded to its end.
whole-EndsAt :
    {A : Type 0} (body : List ℕ) (elem : A) (o : Option (Res A))
    → Answers o
    → EndsAt (length body) (whole body elem o)
whole-EndsAt body elem none h = h
whole-EndsAt body elem (some (ok a)) h = refl
whole-EndsAt body elem (some (err e)) h = tt
whole-EndsAt body elem (some fault) h = h

in_utc-Answers : (o : Option (Res Time)) → Answers o → Answers (in_utc o)
unfolding in_utc
in_utc-Answers none h = h
in_utc-Answers (some (ok t)) h = tt
in_utc-Answers (some (err e)) h = tt
in_utc-Answers (some fault) h = h

time_holder_switch_ends :
    (body slab : List ℕ) (slab_off : ℕ)
    → InSlab body slab slab_off
    → EndsAll (length body) (time_holder_switch body slab slab_off)
unfolding time_holder_switch
time_holder_switch_ends body slab slab_off r num wire_type i m h =
    (on num == 1
      stays record {
        ends =
            Ends-message_case timestamp "CreatedAt" 1 body slab slab_off r m m.created_at _
              wire_type i h
              (λ s off inside shorter.
                whole-EndsAt s m.created_at (in_utc (decode_timestamp s))
                  (in_utc-Answers (decode_timestamp s) (decode_ts-Answers s).0));
      }
      or on num == 2
      stays record {
        ends =
            Ends-message_case duration "Timeout" 2 body slab slab_off r m m.timeout _ wire_type i h
              (λ s off inside shorter.
                whole-EndsAt s m.timeout (decode_duration s) (decode_ts-Answers s).1);
      }
      or skip-Stays body wire_type i m h).ends

pub time_holder-Lawful : Lawful time_holder IsTimeHolder time_holder_wire time_holder_after
unfolding time_holder_marshal_internal time_holder_unmarshal_internal
time_holder-Lawful = record {
  size_wire = λ m v. (time_holder_parts m v).sized;
  writes_wire = λ m v. Writes-Appends (time_holder_parts m v).writes;
  reads_wire = λ m r slab slab_off v h.
      decode_fields_lem ((time_holder_parts m v).reads (time_holder_wire m) slab slab_off h);
  slab_body = λ bs r. unfold time_holder_switch message_case in refl;
  ends_at = λ r body slab slab_off h.
      decode_fields_ends bad_tag body _ (time_holder_switch_ends body slab slab_off h) _;
}

-- For every valid `TimeHolder`, MarshalCodec returns its wire bytes, as many as SizeCodec says;
-- MarshalToCodec writes them at the front of a buffer that holds them and leaves the rest of it, and on a
-- shorter buffer returns ErrBufferTooShort; and UnmarshalCodec on the bytes reads to the end and leaves, in
-- any receiver, the same duration and the same instant in UTC, but the zero time of the Unix epoch.
pub time_holder_round_trip :
    (m r : TimeHolder) (buf : List ℕ)
    → IsTimeHolder m
    → (marshal_codec time_holder (some m) ≡ ok (time_holder_wire m))
      × (size_codec time_holder (some m) ≡ length (time_holder_wire m))
      × (marshal_to_codec time_holder (some m) buf ≡ (
          if ltb (length buf) (length (time_holder_wire m))
          then err (sentinel buffer_too_short)
          else ok (
            time_holder_wire m ++ drop (length (time_holder_wire m)) buf,
            length (time_holder_wire m),
          )))
      × (unmarshal_codec time_holder (some r) (time_holder_wire m)
          ≡ done (time_holder_after m) (length (time_holder_wire m)))
time_holder_round_trip m r buf v = codec_lem time_holder-Lawful m r buf v
