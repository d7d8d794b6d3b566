-- ===== src/Runtime/Time/Wire.antt =====
-- The body that a pair of seconds and nanoseconds has on the wire: two varint fields, each left out at 0.
use protoc_gen_codec.Base.{
  List, [], arith, if◌then◌else◌, length, length-append, not, ℕ, ◌%◌, ◌++◌, ◌<◌, ◌==◌, ◌^◌, ◌∷◌,
  ◌≡◌,
}
use protoc_gen_codec.Runtime.Errors.{invalid_varint, sentinel}
use protoc_gen_codec.Runtime.Time.{
  TsBody, decode_ts_body, encode_ts_body, sign_extend, size_ts_body, ts_switch,
}
use protoc_gen_codec.Runtime.Varint.{IsU64, sov}
use protoc_gen_codec.Runtime.Varint.Groups.{varint}
use protoc_gen_codec.Runtime.Varint.Size.{size_varint-length}
use protoc_gen_codec.Wire.Emit.Laws.{
  Appends-into, Appends-push, Appends-when, Appends-⨾, Writes, Writes-Appends, Writes-put_varint,
}
use protoc_gen_codec.Wire.Loop.{done}
use protoc_gen_codec.Wire.Loop.Laws.{Takes, Takes-append, Takes-if, Takes-tag, decode_fields_lem}
use protoc_gen_codec.Wire.Read.Laws.{read_varint-varint}

unfoldable pub ts_wire : ℕ → ℕ → List ℕ
ts_wire secs nanos =
    (if not (secs == 0) then 0x08 ∷ varint secs else [])
    ++ (if not (nanos == 0) then 0x10 ∷ varint (sign_extend nanos) else [])

pub sign_extend-lt : (x : ℕ) → x < 2 ^ 32 → sign_extend x < 2 ^ 64
unfolding sign_extend
sign_extend-lt x h = ground arith

pub sign_extend-mod : (x : ℕ) → x < 2 ^ 32 → sign_extend x % 2 ^ 32 ≡ x
unfolding sign_extend
sign_extend-mod x h = ground arith

-- `sizeTSBody` is the length of the body.
pub length-ts_wire :
    (secs nanos : ℕ)
    → IsU64 secs
    → nanos < 2 ^ 32
    → length (ts_wire secs nanos) ≡ size_ts_body secs nanos
unfolding ts_wire size_ts_body sov
length-ts_wire secs nanos hs hn = ground (
  arith,
  size_varint-length secs hs,
  size_varint-length (sign_extend nanos) (sign_extend-lt nanos hn),
  length-append (if not (secs == 0) then 0x08 ∷ varint secs else [])
      (if not (nanos == 0) then 0x10 ∷ varint (sign_extend nanos) else []),
)

-- `encodeTSBody` writes the body.
pub Writes-encode_ts_body :
    (secs nanos : ℕ)
    → IsU64 secs
    → nanos < 2 ^ 32
    → Writes (encode_ts_body secs nanos) (ts_wire secs nanos)
unfolding encode_ts_body ts_wire
Writes-encode_ts_body secs nanos hs hn = Writes-Appends (
    Appends-⨾
      (Appends-when (not (secs == 0))
        (Appends-⨾ (Appends-push 0x08) (Appends-into (Writes-put_varint secs hs))))
      (Appends-when (not (nanos == 0)) (
        Appends-⨾ (Appends-push 0x10)
          (Appends-into (Writes-put_varint (sign_extend nanos) (sign_extend-lt nanos hn))))))

abbrev TakesTs : List ℕ → List ℕ → TsBody → TsBody → Type 0
TakesTs body = Takes (λ _. sentinel invalid_varint) body (ts_switch body)

takes_secs :
    (body : List ℕ) (x : ℕ) (m : TsBody)
    → IsU64 x
    → TakesTs body (0x08 ∷ varint x) m (record m { secs = x })
takes_secs body x m h = Takes-tag 1 0 (varint x) (omega arith) (omega arith) λ i rest at.
    unfold ts_switch in rw (read_varint-varint (sentinel invalid_varint) body i x rest h at)

takes_nanos :
    (body : List ℕ) (x : ℕ) (m : TsBody)
    → x < 2 ^ 32
    → TakesTs body (0x10 ∷ varint (sign_extend x)) m (record m { nanos = x })
takes_nanos body x m h =
    Takes-tag 2 0 (varint (sign_extend x)) (omega arith) (omega arith) λ i rest at.
      unfold ts_switch in
      rw (
        read_varint-varint (sentinel invalid_varint) body i (sign_extend x) rest
            (sign_extend-lt x h) at,
        sign_extend-mod x h,
      )

-- `decodeTSBody` reads the body back, to its end.
pub decode_ts_body-ts_wire :
    (secs nanos : ℕ)
    → IsU64 secs
    → nanos < 2 ^ 32
    → decode_ts_body (ts_wire secs nanos)
      ≡ done (record { secs = secs; nanos = nanos }) (length (ts_wire secs nanos))
unfolding decode_ts_body ts_wire
decode_ts_body-ts_wire secs nanos hs hn = decode_fields_lem (
    Takes-append
      (Takes-if (not (secs == 0)) (λ _. takes_secs body secs empty hs) (λ e. ground arith))
      (Takes-if (not (nanos == 0)) (λ _. takes_nanos body nanos _ hn) (λ e. ground arith)))
  where
    body : List ℕ
    body = ts_wire secs nanos

    empty : TsBody
    empty = record { secs = 0; nanos = 0 }
