-- ===== src/Runtime/Time.antt =====
-- lang/go/codec/wkt.go: Timestamp and Duration bodies. An int64 or int32 is its bit pattern.
pub mod Wire
pub mod RoundTrip
pub mod Ends
use protoc_gen_codec.Base.{
  Bool, List, Option, if◌then◌else◌, ltb, none, not, some, ℕ, ◌%◌, ◌&&◌, ◌*◌, ◌+◌, ◌-◌, ◌/◌, ◌==◌,
  ◌^◌,
}
use protoc_gen_codec.Runtime.Errors.{Res, err, fault, invalid_varint, ok, sentinel}
use protoc_gen_codec.Runtime.Varint.{sov}
use protoc_gen_codec.Wire.Emit.{Writer, into, push, put_varint, when, ◌⨾◌}
use protoc_gen_codec.Wire.Loop.{Run, Switch, decode_fields, done, failed, panicked, reading, spent}
use protoc_gen_codec.Wire.Read.{read_varint, skip_at}

-- A `time.Time` of package time as an instant: `Unix()`, an int64, and `Nanosecond()`, below 10 ^ 9.
-- Locations are left out, since wkt.go makes only times in UTC.
pub record Time : Type 0 where
  pub unix : ℕ
  pub nanosecond : ℕ

-- `time.Time{}`, the first instant of the year 1, and `IsZero`.
abbrev pub zero_time : Time
zero_time = record { unix = 2 ^ 64 - 62135596800; nanosecond = 0 }

unfoldable pub is_zero : Time → Bool
is_zero t = t.unix == (2 ^ 64 - 62135596800) && t.nanosecond == 0

abbrev pub second : ℕ
second = 1000000000

-- `uint64(x)` and `int64(x)` of an int32.
unfoldable pub sign_extend : ℕ → ℕ
sign_extend x = if ltb x (2 ^ 31) then x else x + (2 ^ 64 - 2 ^ 32)

-- `time.Unix(sec, nsec)` for an int32 `nsec`: whole seconds are carried over, so that 0 ≤ nanosecond < 10 ^ 9.
unfoldable pub unix_time : ℕ → ℕ → Time
unix_time sec nsec =
    let below = (2 ^ 32 - nsec + 999999999) / second in
    if ltb nsec (2 ^ 31)
    then record { unix = (sec + nsec / second) % 2 ^ 64; nanosecond = nsec % second }
    else record {
      unix = (sec + 2 ^ 64 - below) % 2 ^ 64;
      nanosecond = below * second - (2 ^ 32 - nsec);
    }

-- `int64(d / time.Second)` and `int32(d % time.Second)`: Go's division goes towards 0.
unfoldable pub duration_secs : ℕ → ℕ
duration_secs d = if ltb d (2 ^ 63) then d / second else (2 ^ 64 - (2 ^ 64 - d) / second) % 2 ^ 64

unfoldable pub duration_nanos : ℕ → ℕ
duration_nanos d = if ltb d (2 ^ 63) then d % second else (2 ^ 32 - (2 ^ 64 - d) % second) % 2 ^ 32

unfoldable pub size_ts_body : ℕ → ℕ → ℕ
size_ts_body secs nanos =
    (if secs == 0 then 0 else 1 + sov secs)
    + (if nanos == 0 then 0 else 1 + sov (sign_extend nanos))

unfoldable pub size_timestamp : Time → ℕ
size_timestamp t = if is_zero t then 0 else size_ts_body t.unix t.nanosecond

unfoldable pub size_duration : ℕ → ℕ
size_duration d = size_ts_body (duration_secs d) (duration_nanos d)

unfoldable pub encode_ts_body : ℕ → ℕ → Writer
encode_ts_body secs nanos buf =
    (when (not (secs == 0)) (push 0x08 ⨾ into (put_varint secs))
        ⨾ when (not (nanos == 0)) (push 0x10 ⨾ into (put_varint (sign_extend nanos))))
      buf 0

unfoldable pub encode_timestamp : Time → Writer
encode_timestamp t buf = if is_zero t then ok (buf, 0) else encode_ts_body t.unix t.nanosecond buf

unfoldable pub encode_duration : ℕ → Writer
encode_duration d = encode_ts_body (duration_secs d) (duration_nanos d)

pub record TsBody : Type 0 where
  pub secs : ℕ
  pub nanos : ℕ

unfoldable pub ts_switch : List ℕ → Switch TsBody
ts_switch body num wire_type i m =
    if num == 1
    then reading (read_varint (sentinel invalid_varint) body i) m
        (λ r. done (record m { secs = r.0 }) r.1)
    else if num == 2
    then reading (read_varint (sentinel invalid_varint) body i) m
        (λ r. done (record m { nanos = r.0 % 2 ^ 32 }) r.1)
    else reading (skip_at body wire_type i) m (λ j. done m j)

unfoldable pub decode_ts_body : List ℕ → Run TsBody
decode_ts_body body =
    decode_fields (λ _. sentinel invalid_varint) body (ts_switch body)
      (record { secs = 0; nanos = 0 })

-- A decoder's result: its value, or an error. The index at which it stopped is dropped.
abbrev pub result {ℓ κ} : {M : Type ℓ} {A : Type κ} → (M → A) → Run M → Option (Res A)
result f (done m i) = some (ok (f m))
result f (failed e m) = some (err e)
result f panicked = some fault
result f spent = none

unfoldable pub time_of : TsBody → Time
time_of b = if b.secs == 0 && b.nanos == 0 then zero_time else unix_time b.secs b.nanos

-- `time.Duration(secs)*time.Second + time.Duration(nanos)`, which wraps.
unfoldable pub duration_of : TsBody → ℕ
duration_of b = (b.secs * second + sign_extend b.nanos) % 2 ^ 64

unfoldable pub decode_timestamp : List ℕ → Option (Res Time)
decode_timestamp body = result time_of (decode_ts_body body)

unfoldable pub decode_duration : List ℕ → Option (Res ℕ)
decode_duration body = result duration_of (decode_ts_body body)
