-- ===== src/Runtime/Time/RoundTrip.antt =====
-- A Timestamp or a Duration is written in as many bytes as its size says, and read back.
use protoc_gen_codec.Base.{
  Bool-cases, List, Option, [], ap, arith, drop, false, if◌then◌else◌, inl, inr, length, refl, some,
  true, ℕ, ◌&&◌, ◌++◌, ◌<◌, ◌==◌, ◌^◌, ◌∙◌, ◌≡◌, ◌≤◌,
}
use protoc_gen_codec.Runtime.Errors.{Res, ok}
use protoc_gen_codec.Runtime.Time.{
  Time, decode_duration, decode_timestamp, decode_ts_body, duration_nanos, duration_of,
  duration_secs, encode_duration, encode_timestamp, is_zero, second, sign_extend, size_duration,
  size_timestamp, size_ts_body, time_of, unix_time, zero_time,
}
use protoc_gen_codec.Runtime.Time.Wire.{
  Writes-encode_ts_body, decode_ts_body-ts_wire, length-ts_wire, ts_wire,
}
use protoc_gen_codec.Runtime.Varint.{IsU64}
use protoc_gen_codec.Wire.Loop.{decode_fields, field_loop}

pub duration_parts :
    (d : ℕ)
    → IsU64 d
    → IsU64 (duration_secs d)
      × (duration_nanos d < 2 ^ 32)
      × (duration_of (record { secs = duration_secs d; nanos = duration_nanos d }) ≡ d)
unfolding duration_secs duration_nanos duration_of sign_extend
duration_parts d h = ground arith

-- For every int64 `d` and every buffer with room for `SizeDuration(d)` bytes, `EncodeDuration` does
-- not panic, writes `SizeDuration(d)` bytes at the start of the buffer and nothing else, and
-- `DecodeDuration` reads `d` back from them.
pub decode_duration-encode_duration :
    (d : ℕ) (buf : List ℕ)
    → IsU64 d
    → size_duration d ≤ length buf
    → (bs : List ℕ) × (encode_duration d buf
        ≡ ok (bs ++ drop (size_duration d) buf, size_duration d))
      × (decode_duration bs ≡ some (ok d))
unfolding size_duration encode_duration decode_duration
decode_duration-encode_duration d buf h fits =
    let (hs, hn, back) = duration_parts d h in
    let len = length-ts_wire (duration_secs d) (duration_nanos d) hs hn in
    (
      ts_wire (duration_secs d) (duration_nanos d),
      rw (← len) (
          Writes-encode_ts_body (duration_secs d) (duration_nanos d) hs hn buf
            (omega (arith, len))),
      rw (decode_ts_body-ts_wire (duration_secs d) (duration_nanos d) hs hn, back),
    )

-- The instants of package time.
pub record IsTime (t : Time) : Type 0 where
  pub unix_fits : IsU64 t.unix
  pub below_second : t.nanosecond < second

-- The Unix epoch has an empty body, as the zero time has.
unfoldable pub after_trip : Time → Time
after_trip t = if t.unix == 0 && t.nanosecond == 0 then zero_time else t

pub time_parts :
    (t : Time) → IsTime t → time_of (record { secs = t.unix; nanos = t.nanosecond }) ≡ after_trip t
unfolding time_of after_trip unix_time
time_parts t v = ground arith

pub nanos_fit : (t : Time) → IsTime t → t.nanosecond < 2 ^ 32
nanos_fit t v = omega arith

pub zero_trip : (t : Time) → is_zero t ≡ true → zero_time ≡ after_trip t
unfolding is_zero after_trip
zero_trip t h = ground arith

pub decode_empty : decode_timestamp [] ≡ some (ok zero_time)
unfolding decode_timestamp decode_ts_body decode_fields field_loop time_of
decode_empty = refl

size_fits :
    (t : Time) (buf : List ℕ)
    → is_zero t ≡ false
    → size_timestamp t ≤ length buf
    → length (ts_wire t.unix t.nanosecond) ≡ size_ts_body t.unix t.nanosecond
    → length (ts_wire t.unix t.nanosecond) ≤ length buf
unfolding size_timestamp
size_fits t buf other fits len = ground arith

-- For every instant `t` and every buffer with room for `SizeTimestamp(t)` bytes, `EncodeTimestamp`
-- does not panic and writes `SizeTimestamp(t)` bytes at the start of the buffer and nothing else;
-- `DecodeTimestamp` reads `t` back from them, but the zero time where `t` is the Unix epoch.
pub decode_timestamp-encode_timestamp :
    (t : Time) (buf : List ℕ)
    → IsTime t
    → size_timestamp t ≤ length buf
    → (bs : List ℕ) × (encode_timestamp t buf
        ≡ ok (bs ++ drop (size_timestamp t) buf, size_timestamp t))
      × (decode_timestamp bs ≡ some (ok (after_trip t)))
decode_timestamp-encode_timestamp t buf v fits = elim (Bool-cases (is_zero t)) [
  | inl zero_case ↦ (
    [],
    unfold encode_timestamp size_timestamp in rw zero_case,
    decode_empty ∙ ap {B = Option (Res Time)} (λ (u : Time). some (ok u)) (zero_trip t zero_case),
  )
  | inr other ↦
      let len = length-ts_wire t.unix t.nanosecond v.unix_fits (nanos_fit t v) in
      let fits' : length (ts_wire t.unix t.nanosecond) ≤ length buf =
        size_fits t buf other fits len in
      (
        ts_wire t.unix t.nanosecond,
        unfold encode_timestamp size_timestamp in
            rw (other, ← len)
              (Writes-encode_ts_body t.unix t.nanosecond v.unix_fits (nanos_fit t v) buf fits'),
        unfold decode_timestamp in
            rw (
              decode_ts_body-ts_wire t.unix t.nanosecond v.unix_fits (nanos_fit t v),
              time_parts t v,
            ),
      )
]
