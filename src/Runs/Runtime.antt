-- ===== src/Runs/Runtime.antt =====
-- The varint, zigzag, skip and time functions at concrete inputs; 150 is [0x96, 0x01], and field 3
-- with the string "ab" is [0x1a, 2, 'a', 'b'].
use protoc_gen_codec.Base.{
  List, [], arith, drop, length, refl, replicate, some, ℕ, ◌++◌, ◌-◌, ◌<◌, ◌^◌, ◌∷◌, ◌≡◌, ◌≤◌,
}
use protoc_gen_codec.Runtime.Errors.{fault, ok}
use protoc_gen_codec.Runtime.Skip.{skip_bytes, skip_field}
use protoc_gen_codec.Runtime.Skip.Bounds.{skip_field_bounds}
use protoc_gen_codec.Runtime.Time.{
  Time, decode_duration, decode_timestamp, duration_nanos, duration_secs, encode_duration,
  encode_timestamp, is_zero, sign_extend, size_duration, size_timestamp, size_ts_body,
}
use protoc_gen_codec.Runtime.Time.Ends.{Answers, decode_ts-Answers}
use protoc_gen_codec.Runtime.Time.RoundTrip.{
  after_trip, decode_duration-encode_duration, decode_timestamp-encode_timestamp,
}
use protoc_gen_codec.Runtime.Varint.{
  IsU64, bit_len, decode_loop, decode_varint, encode_varint, size_varint, sov,
}
use protoc_gen_codec.Runtime.Varint.Decode.{
  decode_varint-eq-number_at, decode_varint_bounds, number_at,
}
use protoc_gen_codec.Runtime.Varint.Encode.{encode_varint_lem, encode_varint_short}
use protoc_gen_codec.Runtime.Varint.Groups.{groups, varint}
use protoc_gen_codec.Runtime.Varint.RoundTrip.{decode_varint-varint}
use protoc_gen_codec.Runtime.Varint.Size.{size_varint-length}
use protoc_gen_codec.Runtime.Zigzag.{
  zigzag_decode32, zigzag_decode64, zigzag_encode32, zigzag_encode64,
}
use protoc_gen_codec.Runtime.Zigzag.Laws.{zigzag_inverse32, zigzag_inverse64}

abbrev room : List ℕ
room = replicate 4 7

encode_varint_lem_example :
    encode_varint room 150 ≡ ok (varint 150 ++ drop (size_varint 150) room, size_varint 150)
encode_varint_lem_example =
    encode_varint_lem 150 room (omega arith) (unfold size_varint bit_len in omega arith)

encode_varint_bytes : encode_varint room 150 ≡ ok (0x96 ∷ 0x01 ∷ 7 ∷ 7 ∷ [], 2)
unfolding varint groups size_varint bit_len
encode_varint_bytes = encode_varint_lem_example

encode_varint_short_example : encode_varint (7 ∷ []) 150 ≡ fault
encode_varint_short_example =
    encode_varint_short 150 (7 ∷ []) (omega arith) (unfold size_varint bit_len in omega arith)

decode_varint-eq-number_at_example :
    decode_varint (0x96 ∷ 0x01 ∷ 7 ∷ []) ≡ number_at (0x96 ∷ 0x01 ∷ 7 ∷ [])
decode_varint-eq-number_at_example = decode_varint-eq-number_at (0x96 ∷ 0x01 ∷ 7 ∷ [])

decode_150 : decode_varint (0x96 ∷ 0x01 ∷ 7 ∷ []) ≡ some (150, 2)
unfolding decode_varint decode_loop
decode_150 = refl

decode_varint_bounds_example : IsU64 150 × (1 ≤ 2) × (2 ≤ 10) × (2 ≤ 3)
decode_varint_bounds_example = decode_varint_bounds (0x96 ∷ 0x01 ∷ 7 ∷ []) (150, 2) decode_150

decode_varint-varint_example :
    decode_varint (varint 150 ++ (7 ∷ [])) ≡ some (150, length (varint 150))
decode_varint-varint_example = decode_varint-varint 150 (7 ∷ []) (omega arith)

size_varint-length_example : size_varint 300 ≡ length (varint 300)
size_varint-length_example = size_varint-length 300 (omega arith)

-- The pattern of -2 encodes to 3.
zigzag_inverse64_example :
    (zigzag_encode64 (2 ^ 64 - 2) < 2 ^ 64)
    × (zigzag_decode64 (zigzag_encode64 (2 ^ 64 - 2)) ≡ 2 ^ 64 - 2)
    × (zigzag_encode64 (zigzag_decode64 (2 ^ 64 - 2)) ≡ 2 ^ 64 - 2)
zigzag_inverse64_example = zigzag_inverse64 (2 ^ 64 - 2) (omega arith)

zigzag_inverse32_example :
    (zigzag_encode32 (2 ^ 32 - 2) < 2 ^ 32)
    × (zigzag_decode32 (zigzag_encode32 (2 ^ 32 - 2)) ≡ 2 ^ 32 - 2)
    × (zigzag_encode32 (zigzag_decode32 (2 ^ 32 - 2)) ≡ 2 ^ 32 - 2)
zigzag_inverse32_example = zigzag_inverse32 (2 ^ 32 - 2) (omega arith)

zigzag_minus_two : zigzag_encode64 (2 ^ 64 - 2) ≡ 3
unfolding zigzag_encode64
zigzag_minus_two = refl

skip_two : skip_field (2 ∷ 97 ∷ 98 ∷ 9 ∷ []) 2 ≡ ok 3
unfolding skip_field skip_bytes decode_varint decode_loop
skip_two = refl

skip_field_bounds_example : (1 ≤ 3) × (3 ≤ 4)
skip_field_bounds_example = skip_field_bounds (2 ∷ 97 ∷ 98 ∷ 9 ∷ []) 2 3 skip_two

-- 1.5 s less than nothing.
abbrev minus_duration : ℕ
minus_duration = 2 ^ 64 - 1500000000

abbrev wide : List ℕ
wide = replicate 30 7

decode_duration-encode_duration_example :
    (bs : List ℕ) × (encode_duration minus_duration wide
      ≡ ok (bs ++ drop (size_duration minus_duration) wide, size_duration minus_duration))
    × (decode_duration bs ≡ some (ok minus_duration))
decode_duration-encode_duration_example =
    decode_duration-encode_duration minus_duration wide (omega arith) (
      unfold size_duration duration_secs duration_nanos size_ts_body sov size_varint bit_len
        sign_extend in
      omega arith)

-- Half a second past the instant 1.
abbrev instant : Time
instant = record { unix = 1; nanosecond = 500000000 }

decode_timestamp-encode_timestamp_example :
    (bs : List ℕ) × (encode_timestamp instant wide
      ≡ ok (bs ++ drop (size_timestamp instant) wide, size_timestamp instant))
    × (decode_timestamp bs ≡ some (ok (after_trip instant)))
decode_timestamp-encode_timestamp_example =
    decode_timestamp-encode_timestamp instant wide
      (record { unix_fits = omega arith; below_second = omega arith })
      (unfold size_timestamp is_zero size_ts_body sov size_varint bit_len sign_extend in
        omega arith)

decode_ts-Answers_example :
    Answers (decode_timestamp (0x08 ∷ 0xff ∷ [])) × Answers (decode_duration (0x08 ∷ 0xff ∷ []))
decode_ts-Answers_example = decode_ts-Answers (0x08 ∷ 0xff ∷ [])
