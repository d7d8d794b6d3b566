-- ===== src/Fixtures/NumericOnly/Laws.antt =====
-- `NumericOnly` on the wire: its methods are lawful, and an optional field left out is nil again.
use protoc_gen_codec.Base.{
  Bool, List, Option, [], ap, arith, drop, if◌then◌else◌, length, ltb, none, not, refl, some, ℕ,
  ◌++◌, ◌+◌, ◌<◌, ◌==◌, ◌^◌, ◌∙◌, ◌∷◌, ◌≡◌,
}
use protoc_gen_codec.Fixtures.NumericOnly.{
  NumericOnly, NumericOnlySeen, numeric_only, numeric_only_finish, numeric_only_marshal_internal,
  numeric_only_return, numeric_only_size, numeric_only_start, numeric_only_switch,
  numeric_only_unmarshal_internal, see,
}
use protoc_gen_codec.Message.{marshal_codec, marshal_to_codec, size_codec, unmarshal_codec}
use protoc_gen_codec.Message.Kinds.{
  bad_tag, emit_bool_field, emit_fixed64_field, emit_varint_field, size_bool_field,
  size_fixed64_field, size_varint_field,
}
use protoc_gen_codec.Message.Kinds.Numeric.{
  emit_optional_bool_field, emit_optional_fixed64_field, emit_optional_int32_field,
  emit_zigzag32_field, emit_zigzag64_field, size_optional_bool_field, size_optional_fixed64_field,
  size_optional_int32_field, size_zigzag32_field, size_zigzag64_field,
}
use protoc_gen_codec.Message.Kinds.Scalar.{bool_wire, fixed64_wire, varint_wire}
use protoc_gen_codec.Message.Laws.{Lawful, codec_lem, unmarshal_codec_ends}
use protoc_gen_codec.Message.Parts.{Part, bool_part, fixed64_part, uint64_part, uint_part, ◌⊕◌}
use protoc_gen_codec.Message.Parts.Numeric.{
  AllOption, coded_wire, optional_bool_part, optional_fixed64_part, optional_int32_part,
  optional_wire, stored, zigzag32_part, zigzag64_part,
}
use protoc_gen_codec.Message.Parts.Stays.{fixed64-Stays, on◌stays◌or◌, skip-Stays, varint-Stays}
use protoc_gen_codec.Runtime.Errors.{buffer_too_short, err, ok, sentinel}
use protoc_gen_codec.Runtime.Time.{sign_extend}
use protoc_gen_codec.Runtime.Varint.{IsU64}
use protoc_gen_codec.Runtime.Varint.Groups.{varint}
use protoc_gen_codec.Runtime.Zigzag.{zigzag_encode32, zigzag_encode64}
use protoc_gen_codec.Wire.Emit.{little_endian, ◌⨾◌}
use protoc_gen_codec.Wire.Emit.Laws.{Writes-Appends}
use protoc_gen_codec.Wire.Loop.{Run, done, failed, panicked, spent}
use protoc_gen_codec.Wire.Loop.Laws.{decode_fields_lem}
use protoc_gen_codec.Wire.Loop.Safe.{EndsAll, EndsAt, decode_fields_ends}

-- The values that the Go types of the fields admit.
pub record IsNumericOnly (m : NumericOnly) : Type 0 where
  pub a_fits : m.a < 2 ^ 32
  pub b_fits : IsU64 m.b
  pub c_fits : IsU64 m.c
  pub d_fits : IsU64 m.d
  pub f_fits : m.f < 2 ^ 32
  pub g_fits : IsU64 m.g
  pub h_fits : AllOption (λ x. x < 2 ^ 32) m.h
  pub j_fits : AllOption IsU64 m.j

abbrev pub numeric_only_wire : NumericOnly → List ℕ
numeric_only_wire m =
    varint_wire 0x08 m.a
    ++ varint_wire 0x10 m.b
    ++ varint_wire 0x18 m.c
    ++ fixed64_wire 0x21 m.d
    ++ bool_wire 0x28 m.e
    ++ coded_wire 0x30 (not (m.f == 0)) (zigzag_encode32 m.f)
    ++ coded_wire 0x38 (not (m.g == 0)) (zigzag_encode64 m.g)
    ++ optional_wire (λ x. varint (sign_extend x)) 0x40 m.h
    ++ optional_wire (λ (b : Bool). (if b then 1 else 0) ∷ []) 0x48 m.i
    ++ optional_wire (little_endian 8) 0x51 m.j

-- The state of the loop once the fields of `m` are read into the receiver `r`.
abbrev numeric_only_read : NumericOnly → NumericOnly → NumericOnlySeen
numeric_only_read m r =
    let s7 : NumericOnlySeen = record {
      value = record m { h = r.h; i = r.i; j = r.j };
      seen_optional = 0;
    } in
    let s8 : NumericOnlySeen = stored (λ y. see s7 8 (record s7.value { h = some y })) s7 m.h in
    let s9 : NumericOnlySeen = stored (λ y. see s8 9 (record s8.value { i = some y })) s8 m.i in
    stored (λ y. see s9 10 (record s9.value { j = some y })) s9 m.j

numeric_only_parts :
    (m r : NumericOnly)
    → IsNumericOnly m
    → Part numeric_only_switch
        (size_varint_field m.a
          + size_varint_field m.b
          + size_varint_field m.c
          + size_fixed64_field m.d
          + size_bool_field m.e
          + size_zigzag32_field m.f
          + size_zigzag64_field m.g
          + size_optional_int32_field m.h
          + size_optional_bool_field m.i
          + size_optional_fixed64_field m.j)
        (emit_varint_field 0x08 m.a
          ⨾ emit_varint_field 0x10 m.b
          ⨾ emit_varint_field 0x18 m.c
          ⨾ emit_fixed64_field 0x21 m.d
          ⨾ emit_bool_field 0x28 m.e
          ⨾ emit_zigzag32_field 0x30 m.f
          ⨾ emit_zigzag64_field 0x38 m.g
          ⨾ emit_optional_int32_field 0x40 m.h
          ⨾ emit_optional_bool_field 0x48 m.i
          ⨾ emit_optional_fixed64_field 0x51 m.j)
        (numeric_only_wire m)
        (numeric_only_start r)
        (numeric_only_read m r)
unfolding numeric_only_switch
numeric_only_parts m r v =
    let s0 = numeric_only_start r in
    let s1 : NumericOnlySeen = record s0 { value = record s0.value { a = m.a } } in
    let s2 : NumericOnlySeen = record s1 { value = record s1.value { b = m.b } } in
    let s3 : NumericOnlySeen = record s2 { value = record s2.value { c = m.c } } in
    let s4 : NumericOnlySeen = record s3 { value = record s3.value { d = m.d } } in
    let s5 : NumericOnlySeen = record s4 { value = record s4.value { e = m.e } } in
    let s6 : NumericOnlySeen = record s5 { value = record s5.value { f = m.f } } in
    let s7 : NumericOnlySeen = record s6 { value = record s6.value { g = m.g } } in
    let s8 : NumericOnlySeen = stored (λ y. see s7 8 (record s7.value { h = some y })) s7 m.h in
    let s9 : NumericOnlySeen = stored (λ y. see s8 9 (record s8.value { i = some y })) s8 m.i in
    let s10 : NumericOnlySeen = stored (λ y. see s9 10 (record s9.value { j = some y })) s9 m.j in
    uint_part "A" 1 (omega arith) 32 (λ y. record s0 { value = record s0.value { a = y } }) m.a
      (omega arith) v.a_fits (λ body slab slab_off i. refl)
    ⊕ uint64_part "B" 2 (omega arith) (λ y. record s1 { value = record s1.value { b = y } }) m.b
        v.b_fits (λ body slab slab_off i. refl)
    ⊕ uint64_part "C" 3 (omega arith) (λ y. record s2 { value = record s2.value { c = y } }) m.c
        v.c_fits (λ body slab slab_off i. refl)
    ⊕ fixed64_part "D" 4 (omega arith) (λ y. record s3 { value = record s3.value { d = y } }) m.d
        v.d_fits (λ body slab slab_off i. refl)
    ⊕ bool_part "E" 5 (omega arith) (λ y. record s4 { value = record s4.value { e = y } }) m.e
        (λ body slab slab_off i. refl)
    ⊕ zigzag32_part "F" 6 (omega arith) (λ y. record s5 { value = record s5.value { f = y } }) m.f
        v.f_fits (λ body slab slab_off i. refl)
    ⊕ zigzag64_part "G" 7 (omega arith) (λ y. record s6 { value = record s6.value { g = y } }) m.g
        v.g_fits (λ body slab slab_off i. refl)
    ⊕ optional_int32_part "H" 8 (omega arith) (λ y. see s7 8 (record s7.value { h = some y })) s7
        m.h v.h_fits (λ body slab slab_off i. refl)
    ⊕ optional_bool_part "I" 9 (omega arith) (λ y. see s8 9 (record s8.value { i = some y })) s8 m.i
        (λ body slab slab_off i. refl)
    ⊕ optional_fixed64_part "J" 10 (omega arith) (λ y. see s9 10 (record s9.value { j = some y }))
        s9 m.j v.j_fits (λ body slab slab_off i. refl)

numeric_only_switch_ends :
    (body slab : List ℕ) (slab_off : ℕ)
    → EndsAll (length body) (numeric_only_switch body slab slab_off)
unfolding numeric_only_switch
numeric_only_switch_ends body slab slab_off num wire_type k s h =
    (on num == 1
      stays varint-Stays "A" 1 body wire_type k s h _
      or on num == 2
      stays varint-Stays "B" 2 body wire_type k s h _
      or on num == 3
      stays varint-Stays "C" 3 body wire_type k s h _
      or on num == 4
      stays fixed64-Stays "D" 4 body wire_type k s h _
      or on num == 5
      stays varint-Stays "E" 5 body wire_type k s h _
      or on num == 6
      stays varint-Stays "F" 6 body wire_type k s h _
      or on num == 7
      stays varint-Stays "G" 7 body wire_type k s h _
      or on num == 8
      stays varint-Stays "H" 8 body wire_type k s h _
      or on num == 9
      stays varint-Stays "I" 9 body wire_type k s h _
      or on num == 10
      stays fixed64-Stays "J" 10 body wire_type k s h _
      or skip-Stays body wire_type k s h).ends

-- The bits tell the optional fields of `m` from those of the receiver.
finish-read_cases :
    (m r : NumericOnly) (h : Option ℕ) (i : Option Bool) (j : Option ℕ)
    → numeric_only_finish (numeric_only_read (record m { h = h; i = i; j = j }) r)
      ≡ record m { h = h; i = i; j = j }
unfolding numeric_only_finish
finish-read_cases m r none none none = refl
finish-read_cases m r none none (some z) = refl
finish-read_cases m r none (some y) none = refl
finish-read_cases m r none (some y) (some z) = refl
finish-read_cases m r (some x) none none = refl
finish-read_cases m r (some x) none (some z) = refl
finish-read_cases m r (some x) (some y) none = refl
finish-read_cases m r (some x) (some y) (some z) = refl

numeric_only_finish-read : (m r : NumericOnly) → numeric_only_finish (numeric_only_read m r) ≡ m
numeric_only_finish-read m r = finish-read_cases m r m.h m.i m.j

numeric_only_return_ends :
    (l : ℕ) (run : Run NumericOnlySeen) → EndsAt l run → EndsAt l (numeric_only_return run)
numeric_only_return_ends l (done s i) h = h
numeric_only_return_ends l (failed e s) h = tt
numeric_only_return_ends l panicked h = h
numeric_only_return_ends l spent h = h

pub numeric_only-Lawful : Lawful numeric_only IsNumericOnly numeric_only_wire (λ m. m)
unfolding numeric_only_size numeric_only_marshal_internal numeric_only_unmarshal_internal
    numeric_only_switch
numeric_only-Lawful = record {
  size_wire = λ m v. (numeric_only_parts m m v).sized;
  writes_wire = λ m v. Writes-Appends (numeric_only_parts m m v).writes;
  reads_wire = λ m r slab slab_off v h.
      ap numeric_only_return
        (decode_fields_lem ((numeric_only_parts m r v).reads (numeric_only_wire m) slab slab_off h))
      ∙ ap (λ u. done u (length (numeric_only_wire m))) (numeric_only_finish-read m r);
  slab_body = λ bs r. refl;
  ends_at = λ r body slab slab_off h. numeric_only_return_ends (length body) _ (
      decode_fields_ends bad_tag body _ (numeric_only_switch_ends body [] 0)
        (numeric_only_start r));
}

-- For every valid `NumericOnly`, MarshalCodec returns its wire bytes, as many as SizeCodec says;
-- MarshalToCodec writes them at the front of a buffer that holds them and leaves the rest of it,
-- and on a shorter buffer returns ErrBufferTooShort; and UnmarshalCodec on the bytes leaves
-- exactly that value in any receiver, its nil optional fields included, and reads to the end.
pub numeric_only_round_trip :
    (m r : NumericOnly) (buf : List ℕ)
    → IsNumericOnly m
    → (marshal_codec numeric_only (some m) ≡ ok (numeric_only_wire m))
      × (size_codec numeric_only (some m) ≡ length (numeric_only_wire m))
      × (marshal_to_codec numeric_only (some m) buf ≡ (
          if ltb (length buf) (length (numeric_only_wire m))
          then err (sentinel buffer_too_short)
          else ok (
            numeric_only_wire m ++ drop (length (numeric_only_wire m)) buf,
            length (numeric_only_wire m),
          )))
      × (unmarshal_codec numeric_only (some r) (numeric_only_wire m)
          ≡ done m (length (numeric_only_wire m)))
numeric_only_round_trip m r buf v = codec_lem numeric_only-Lawful m r buf v

-- On any bytes and for any receiver, UnmarshalCodec of `NumericOnly` returns: with the whole input
-- read, or with an error, and never with a panic.
pub numeric_only_unmarshal_ends :
    (r : NumericOnly) (bs : List ℕ) → EndsAt (length bs) (unmarshal_codec numeric_only (some r) bs)
numeric_only_unmarshal_ends r bs = unmarshal_codec_ends numeric_only-Lawful r bs
