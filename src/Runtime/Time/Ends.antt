-- ===== src/Runtime/Time/Ends.antt =====
-- The decoders on any bytes.
use protoc_gen_codec.Base.{List, Option, length, none, some, ℕ, ◌==◌}
use protoc_gen_codec.Runtime.Errors.{Res, err, fault, invalid_varint, ok, sentinel}
use protoc_gen_codec.Runtime.Time.{
  decode_duration, decode_timestamp, decode_ts_body, duration_of, result, time_of, ts_switch,
}
use protoc_gen_codec.Wire.Loop.{Run, done, failed, panicked, spent}
use protoc_gen_codec.Wire.Loop.Safe.{
  Ends-if, Ends-skip, Ends-varint, EndsAll, EndsAt, decode_fields_ends,
}

ts_switch_ends : (body : List ℕ) → EndsAll (length body) (ts_switch body)
unfolding ts_switch
ts_switch_ends body num wire_type i m h =
    Ends-if i (length body) (num == 1) _ _ (Ends-varint body i m h _ _) (
      Ends-if i (length body) (num == 2) _ _ (Ends-varint body i m h _ _)
        (Ends-skip body i m h wire_type))

-- A decoding that came to a value or an error, and neither panicked nor ran out of fuel.
abbrev pub Answers {ℓ} : {A : Type ℓ} → Option (Res A) → Type 0
Answers none = ⊥
Answers (some (ok a)) = Unit {0}
Answers (some (err e)) = Unit {0}
Answers (some fault) = ⊥

Answers-result {ℓ κ} :
    {M : Type ℓ} {A : Type κ} (l : ℕ) (f : M → A) (r : Run M) → EndsAt l r → Answers (result f r)
Answers-result l f (done m i) h = tt
Answers-result l f (failed e m) h = tt
Answers-result l f panicked h = h
Answers-result l f spent h = h

-- On every input, well formed or not, `DecodeTimestamp` and `DecodeDuration` end without a panic,
-- with a value or an error.
pub decode_ts-Answers :
    (body : List ℕ) → Answers (decode_timestamp body) × Answers (decode_duration body)
unfolding decode_timestamp decode_duration decode_ts_body
decode_ts-Answers body =
    let ends =
      decode_fields_ends (λ _. sentinel invalid_varint) body (ts_switch body) (ts_switch_ends body)
        _ in
    (Answers-result (length body) time_of _ ends, Answers-result (length body) duration_of _ ends)
