-- ===== src/Message/Unknown.antt =====
-- Fields whose number a message type does not have: the loop skips them.
use protoc_gen_codec.Base.{
  List, [], ap, append_assoc, arith, drop, length, length-append, le→ltb_false, refl, some, sym, ℕ,
  ◌++◌, ◌+◌, ◌-◌, ◌<◌, ◌^◌, ◌∙◌, ◌≡◌, ◌≤◌, ◌⊎◌,
}
use protoc_gen_codec.Message.Kinds.{skip_case}
use protoc_gen_codec.Runtime.Errors.{Error, err, invalid_wire_type, ok, sentinel, with_wire_type}
use protoc_gen_codec.Runtime.Skip.{skip_bytes, skip_field, skip_fixed, skip_varint}
use protoc_gen_codec.Runtime.Varint.{IsU64, decode_varint}
use protoc_gen_codec.Runtime.Varint.Groups.{varint}
use protoc_gen_codec.Runtime.Varint.RoundTrip.{decode_varint-varint}
use protoc_gen_codec.Wire.Loop.{Switch, done, failed}
use protoc_gen_codec.Wire.Loop.Laws.{Takes, Takes-append, Takes-field, Takes-nil, field_bytes}
use protoc_gen_codec.Wire.Read.{skip_at}
use protoc_gen_codec.Wire.Read.Laws.{At, slice_from-ok}

-- What may stand behind a tag, by its wire type. The wire types 3, 4, 6 and 7 are refused.
pub data Payload : ℕ → List ℕ → Type 0 where
  a_varint : (x : ℕ) → IsU64 x → Payload 0 (varint x)
  eight_bytes : (bs : List ℕ) → length bs ≡ 8 → Payload 1 bs
  some_bytes : (bs : List ℕ) → IsU64 (length bs) → Payload 2 (varint (length bs) ++ bs)
  four_bytes : (bs : List ℕ) → length bs ≡ 4 → Payload 5 bs

-- Fields with numbers above `known`, one after the other, and their bytes.
pub data UnknownFields (known : ℕ) : List ℕ → Type 0 where
  no_fields : UnknownFields known []
  and_field :
      (num wire_type : ℕ) (payload rest : List ℕ)
      → known < num
      → num < 2 ^ 29
      → Payload wire_type payload
      → UnknownFields known rest
      → UnknownFields known (field_bytes num wire_type payload ++ rest)

skip_varint-decoded :
    (bs : List ℕ) (r : ℕ × ℕ) → decode_varint bs ≡ some r → skip_varint bs ≡ ok r.1
unfolding skip_varint
skip_varint-decoded bs r e = rw (skip_varint, e) refl

skip_bytes-decoded :
    (bs : List ℕ) (r : ℕ × ℕ)
    → decode_varint bs ≡ some r
    → r.0 ≤ length bs - r.1
    → skip_bytes bs ≡ ok (r.1 + r.0)
unfolding skip_bytes
skip_bytes-decoded bs r e h = rw (skip_bytes, e, le→ltb_false (length bs - r.1) r.0 h) refl

skip_fixed_lem : (w : ℕ) (bs : List ℕ) → w ≤ length bs → skip_fixed w bs ≡ ok w
unfolding skip_fixed
skip_fixed_lem w bs h = rw (le→ltb_false (length bs) w h) refl

skip_field-Payload :
    (wire_type : ℕ) (payload rest : List ℕ)
    → Payload wire_type payload
    → (skip_field (payload ++ rest) wire_type ≡ ok (length payload)) × (wire_type < 8)
unfolding skip_field
skip_field-Payload _ _ rest (a_varint x h) =
    (skip_varint-decoded (varint x ++ rest) _ (decode_varint-varint x rest h), omega arith)
skip_field-Payload _ _ rest (eight_bytes bs h) = (
  skip_fixed_lem 8 (bs ++ rest) (omega (arith, h, length-append bs rest)) ∙ ap ok (sym h),
  omega arith,
)
skip_field-Payload _ _ rest (four_bytes bs h) = (
  skip_fixed_lem 4 (bs ++ rest) (omega (arith, h, length-append bs rest)) ∙ ap ok (sym h),
  omega arith,
)
skip_field-Payload _ _ rest (some_bytes bs h) =
    let head = varint (length bs) in
    (
      ap (λ (cs : List ℕ). skip_bytes cs) (append_assoc head bs rest)
          ∙ skip_bytes-decoded (head ++ (bs ++ rest)) _
              (decode_varint-varint (length bs) (bs ++ rest) h)
              (omega (arith, length-append head (bs ++ rest), length-append bs rest))
          ∙ ap ok (sym (length-append head bs)),
      omega arith,
    )

abbrev pub IsRefused : ℕ → Type 0
IsRefused wire_type = (wire_type ≡ 3) ⊎ (wire_type ≡ 4) ⊎ (wire_type ≡ 6) ⊎ (wire_type ≡ 7)

skip_field_refused :
    (bs : List ℕ) (wire_type : ℕ)
    → IsRefused wire_type
    → skip_field bs wire_type ≡ err (with_wire_type wire_type (sentinel invalid_wire_type))
unfolding skip_field
skip_field_refused bs wire_type refused = ground (arith, refused)

module _ {ℓ} {M : Type ℓ} (body : List ℕ) where
  skip_case-Payload :
      (wire_type i : ℕ) (m : M) (payload rest : List ℕ)
      → Payload wire_type payload
      → At body i (payload ++ rest)
      → skip_case body wire_type i m ≡ done m (i + length payload)
  unfolding skip_case skip_at
  skip_case-Payload wire_type i m payload rest p (hi, at) =
      rw (slice_from-ok body i hi, at, (skip_field-Payload wire_type payload rest p).0) refl

  pub skip_case_refused :
      (wire_type i : ℕ) (m : M)
      → IsRefused wire_type
      → i ≤ length body
      → skip_case body wire_type i m
        ≡ failed (with_wire_type wire_type (sentinel invalid_wire_type)) m
  unfolding skip_case skip_at
  skip_case_refused wire_type i m refused hi =
      rw (slice_from-ok body i hi, skip_field_refused (drop i body) wire_type refused) refl

  pub unknown-Takes :
      (bad : ℕ → Error) (switch : Switch M) (known : ℕ)
      → ((num wire_type i : ℕ) (m : M)
          → known < num
          → switch num wire_type i m ≡ skip_case body wire_type i m)
      → (bs : List ℕ) (m : M) → UnknownFields known bs
      → Takes bad body switch bs m m
  unknown-Takes bad switch known skips _ m no_fields = Takes-nil
  unknown-Takes bad switch known skips _ m
        (and_field num wire_type payload rest above fits p more) =
      let small = (skip_field-Payload wire_type payload [] p).1 in
      Takes-append
        (Takes-field num wire_type payload (omega (arith, small)) small λ i behind at.
          skips num wire_type i m above ∙ skip_case-Payload wire_type i m payload behind p at)
        (unknown-Takes bad switch known skips rest m more)
