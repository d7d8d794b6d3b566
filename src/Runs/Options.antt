-- ===== src/Runs/Options.antt =====
-- The scans over raw options at a concrete input, with a protowire made of the runtime's decoder.
use mathlib.Core.Option.{some-injective, none-ne-some}
use protoc_gen_codec.Base.{
  Bool, List, Option, [], append_assoc, arith, drop, drop-append, false, if◌then◌else◌, length,
  length-append, le→ltb_false, ltb, ltb_false→le, none, refl, some, subst, take, take-append, true,
  ℕ, ◌%◌, ◌*◌, ◌++◌, ◌+◌, ◌-◌, ◌/◌, ◌<◌, ◌==◌, ◌^◌, ◌||◌, ◌∷◌, ◌≡◌, ◌≤◌,
}
use protoc_gen_codec.Core.Options.{
  Protowire, answered, extract_bool_from_raw, extract_string_from_raw, extract_uint32_from_raw,
  oneofs_from_raw,
}
use protoc_gen_codec.Core.Options.Ends.{Answered, IsProtowire, options-Answered}
use protoc_gen_codec.Core.Options.Found.{
  IsEncoding, IsNumber, extract_string-first_string, first_string, raw_of,
}
use protoc_gen_codec.Runtime.Varint.{decode_varint}
use protoc_gen_codec.Runtime.Varint.Decode.{decode_varint_bounds}
use protoc_gen_codec.Runtime.Varint.Groups.{length-varint, varint}
use protoc_gen_codec.Runtime.Varint.RoundTrip.{decode_varint-varint}
use protoc_gen_codec.Wire.Loop.Laws.{tag_number, tag_wire_type}

-- As in protowire, a tag with the number 0 or a number above the greatest int32 does not decode.
abbrev refused : ℕ → Bool
refused num = num == 0 || ltb (2 ^ 31 - 1) num

abbrev split_tag : Option (ℕ × ℕ) → Option (ℕ × ℕ × ℕ)
split_tag none = none
split_tag (some (t, n)) = if refused (t / 8) then none else some (t / 8, t % 8, n)

abbrev prefixed : List ℕ → Option (ℕ × ℕ) → Option (List ℕ × ℕ)
prefixed raw none = none
prefixed raw (some (l, n)) =
    if ltb (length raw - n) l then none else some (take l (drop n raw), n + l)

abbrev runtime_protowire : Protowire
runtime_protowire = record {
  consume_tag = λ raw. split_tag (decode_varint raw);
  consume_varint = decode_varint;
  consume_bytes = λ raw. prefixed raw (decode_varint raw);
}

split_tag_within :
    (raw : List ℕ) (o : Option (ℕ × ℕ))
    → ((r : ℕ × ℕ) → o ≡ some r → (1 ≤ r.1) × (r.1 ≤ length raw))
    → (r : ℕ × ℕ × ℕ) → split_tag o ≡ some r
    → (1 ≤ r.2) × (r.2 ≤ length raw)
split_tag_within raw none h r e = absurd (none-ne-some _ e)
split_tag_within raw (some (t, n)) h r e = choose (refused (t / 8)) e
  where
    choose :
        (c : Bool)
        → (if c then none else some (t / 8, t % 8, n)) ≡ some r
        → (1 ≤ r.2) × (r.2 ≤ length raw)
    choose true e = absurd (none-ne-some _ e)
    choose false e =
        subst (λ (x : ℕ × ℕ × ℕ). (1 ≤ x.2) × (x.2 ≤ length raw)) (some-injective _ _ e)
          (h (t, n) refl)

prefixed_within :
    (raw : List ℕ) (o : Option (ℕ × ℕ))
    → ((r : ℕ × ℕ) → o ≡ some r → (1 ≤ r.1) × (r.1 ≤ length raw))
    → (r : List ℕ × ℕ) → prefixed raw o ≡ some r
    → (1 ≤ r.1) × (r.1 ≤ length raw)
prefixed_within raw none h r e = absurd (none-ne-some _ e)
prefixed_within raw (some (l, n)) h r e = choose (ltb (length raw - n) l) refl e
  where
    choose :
        (c : Bool)
        → ltb (length raw - n) l ≡ c
        → (if c then none else some (take l (drop n raw), n + l)) ≡ some r
        → (1 ≤ r.1) × (r.1 ≤ length raw)
    choose true d e = absurd (none-ne-some _ e)
    choose false d e =
        subst (λ (x : List ℕ × ℕ). (1 ≤ x.1) × (x.1 ≤ length raw)) (some-injective _ _ e)
          (omega (arith, h (l, n) refl, ltb_false→le (length raw - n) l d))

runtime_within :
    (raw : List ℕ) (r : ℕ × ℕ) → decode_varint raw ≡ some r → (1 ≤ r.1) × (r.1 ≤ length raw)
runtime_within raw r e = omega (arith, decode_varint_bounds raw r e)

runtime_protowire-IsProtowire : IsProtowire runtime_protowire
runtime_protowire-IsProtowire = record {
  tag_within = λ raw. split_tag_within raw (decode_varint raw) (runtime_within raw);
  varint_within = runtime_within;
  bytes_within = λ raw. prefixed_within raw (decode_varint raw) (runtime_within raw);
}

-- A field with two bytes, and one that is cut off.
abbrev raw_options : List ℕ
raw_options = 0x12 ∷ 2 ∷ 97 ∷ 98 ∷ 0x1a ∷ 9 ∷ []

options-Answered_example :
    Answered (extract_string_from_raw runtime_protowire raw_options 3)
    × Answered (extract_uint32_from_raw runtime_protowire raw_options 3)
    × Answered (extract_bool_from_raw runtime_protowire raw_options 3)
    × Answered (oneofs_from_raw runtime_protowire raw_options)
options-Answered_example =
    options-Answered runtime_protowire runtime_protowire-IsProtowire raw_options 3

abbrev runtime_tag : ℕ → List ℕ
runtime_tag num = varint (num * 8 + 2)

abbrev runtime_bytes : List ℕ → List ℕ
runtime_bytes s = varint (length s) ++ s

runtime_bytes_read :
    (s rest : List ℕ)
    → length s < 2 ^ 63
    → runtime_protowire.consume_bytes (runtime_bytes s ++ rest) ≡ some (s, length (runtime_bytes s))
runtime_bytes_read s rest h =
    rw
      (
        append_assoc (varint (length s)) s rest,
        decode_varint-varint (length s) (s ++ rest) (omega (arith, h)),
        drop-append (varint (length s)) (s ++ rest),
        take-append s rest,
        le→ltb_false (length (varint (length s) ++ (s ++ rest)) - length (varint (length s)))
            (length s)
            (omega (arith, length-append (varint (length s)) (s ++ rest), length-append s rest)),
        length-append (varint (length s)) s,
      )
      refl

number_decodes : (num : ℕ) → IsNumber num → refused num ≡ false
number_decodes num h = ground (arith, h)

runtime-IsEncoding : IsEncoding runtime_protowire runtime_tag runtime_bytes
runtime-IsEncoding = record {
  tag_long = λ num h. (length-varint (num * 8 + 2)).0;
  tag_read = λ num rest h.
      rw
        (
          decode_varint-varint (num * 8 + 2) rest (omega (arith, h)),
          tag_number num 2 (omega arith),
          tag_wire_type num 2 (omega arith),
          number_decodes num h,
        )
        refl;
  bytes_read = runtime_bytes_read;
}

-- The go_type option, an unknown one, and go_type again.
abbrev some_entries : List (ℕ × List ℕ)
some_entries = (50001, 97 ∷ 98 ∷ []) ∷ (7, []) ∷ (50001, 99 ∷ []) ∷ []

extract_string-first_string_example :
    extract_string_from_raw runtime_protowire (raw_of runtime_tag runtime_bytes some_entries) 50001
    ≡ answered (first_string 50001 some_entries)
extract_string-first_string_example =
    extract_string-first_string runtime_protowire runtime_tag runtime_bytes runtime-IsEncoding
      some_entries 50001
      (
        (omega arith, omega arith),
        omega arith,
        ((omega arith, omega arith), omega arith, ((omega arith, omega arith), omega arith, tt)),
      )
