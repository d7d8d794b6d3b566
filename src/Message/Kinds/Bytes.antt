-- ===== src/Message/Kinds/Bytes.antt =====
-- Length-delimited fields: strings, byte slices, repeated strings and fixed-length byte arrays.
use protoc_gen_codec.Base.{
  All, List, [], ap, arith, if◌then◌else◌, length, length-append, ltb, not, refl, replicate, true,
  ℕ, ◌++◌, ◌<◌, ◌^◌, ◌∙◌, ◌∷◌, ◌≡◌,
}
use protoc_gen_codec.Message.Kinds.{
  copy_digest, emit_bytes_field, emit_digest_field, emit_element, emit_repeated_field,
  is_zero_digest, size_bytes_field, size_digest_field, size_element, size_repeated_field,
  zero_digest,
}
use protoc_gen_codec.Runtime.Varint.Groups.{varint, varint_one_byte}
use protoc_gen_codec.Runtime.Varint.Size.{size_varint-length}
use protoc_gen_codec.Wire.Emit.{each}
use protoc_gen_codec.Wire.Emit.Laws.{
  Appends, Appends-into, Appends-nothing, Appends-push, Appends-when, Appends-⨾, Writes,
  Writes-copy, Writes-put_varint, concat_map,
}

abbrev pub IsShort : List ℕ → Type 0
IsShort s = length s < 2 ^ 63

abbrev pub element_wire : ℕ → List ℕ → List ℕ
element_wire tag s = tag ∷ (varint (length s) ++ s)

abbrev pub bytes_wire : ℕ → List ℕ → List ℕ
bytes_wire tag s = if ltb 0 (length s) then element_wire tag s else []

abbrev pub repeated_wire : ℕ → List (List ℕ) → List ℕ
repeated_wire tag ss = concat_map (element_wire tag) ss

abbrev pub digest_wire : ℕ → List ℕ → List ℕ
digest_wire tag d = if not (is_zero_digest d) then tag ∷ (varint 32 ++ d) else []

pub length-element_wire :
    (tag : ℕ) (s : List ℕ) → IsShort s → size_element s ≡ length (element_wire tag s)
unfolding size_element
length-element_wire tag s h =
    omega (arith, size_varint-length (length s) (omega arith), length-append (varint (length s)) s)

pub length-bytes_wire :
    (tag : ℕ) (s : List ℕ) → IsShort s → size_bytes_field s ≡ length (bytes_wire tag s)
unfolding size_bytes_field
length-bytes_wire tag s h = ground (arith, length-element_wire tag s h)

pub length-repeated_wire :
    (tag : ℕ) (ss : List (List ℕ))
    → All IsShort ss
    → size_repeated_field ss ≡ length (repeated_wire tag ss)
unfolding size_repeated_field
length-repeated_wire tag [] h = refl
length-repeated_wire tag (s ∷ ss) h = omega (
  arith,
  length-element_wire tag s h.0,
  length-repeated_wire tag ss h.1,
  length-append (element_wire tag s) (repeated_wire tag ss),
)

pub length-digest_wire :
    (tag : ℕ) (d : List ℕ) → length d ≡ 32 → size_digest_field d ≡ length (digest_wire tag d)
unfolding size_digest_field
length-digest_wire tag d h =
    ground (arith, length-append (varint 32) d, ap length (varint_one_byte 32 (omega arith)))

pub Appends-element :
    (tag : ℕ) (s : List ℕ) → IsShort s → Appends (emit_element tag s) (element_wire tag s)
unfolding emit_element
Appends-element tag s h =
    Appends-⨾
      (Appends-⨾ (Appends-push tag) (Appends-into (Writes-put_varint (length s) (omega arith))))
      (Appends-into (Writes-copy s))

pub Appends-bytes_field :
    (tag : ℕ) (s : List ℕ) → IsShort s → Appends (emit_bytes_field tag s) (bytes_wire tag s)
unfolding emit_bytes_field
Appends-bytes_field tag s h = Appends-when (ltb 0 (length s)) (Appends-element tag s h)

pub Appends-repeated_field :
    (tag : ℕ) (ss : List (List ℕ))
    → All IsShort ss
    → Appends (emit_repeated_field tag ss) (repeated_wire tag ss)
unfolding emit_repeated_field each
Appends-repeated_field tag [] h = Appends-nothing
Appends-repeated_field tag (s ∷ ss) h =
    Appends-⨾ (Appends-element tag s h.0) (Appends-repeated_field tag ss h.1)

Writes-copy_digest : (d : List ℕ) → length d ≡ 32 → Writes (copy_digest d) d
unfolding copy_digest
Writes-copy_digest d h room fits = rw (Writes-copy d room fits, h)

pub Appends-digest_field :
    (tag : ℕ) (d : List ℕ) → length d ≡ 32 → Appends (emit_digest_field tag d) (digest_wire tag d)
unfolding emit_digest_field
Appends-digest_field tag d h = Appends-when (not (is_zero_digest d)) (
    Appends-⨾ (Appends-⨾ (Appends-push tag) (Appends-into (Writes-put_varint 32 (omega arith))))
      (Appends-into (Writes-copy_digest d h)))

is_zero_digest-replicate : (d : List ℕ) → is_zero_digest d ≡ true → d ≡ replicate (length d) 0
unfolding is_zero_digest
is_zero_digest-replicate [] z = refl
is_zero_digest-replicate (b ∷ bs) z = ground (arith, is_zero_digest-replicate bs)

pub is_zero_digest-zero : (d : List ℕ) → is_zero_digest d ≡ true → length d ≡ 32 → d ≡ zero_digest
is_zero_digest-zero d z h = is_zero_digest-replicate d z ∙ ap (λ (n : ℕ). replicate n 0) h
