-- ===== src/Message/Kinds/Scalar.antt =====
-- Fields of a scalar kind: what they are on the wire, how long, and that their case reads them back.
use Prim.Native.String.{String}
use protoc_gen_codec.Base.{
  Bool, Bool-cases, List, [], ap, arith, false, if◌then◌else◌, inl, inr, length, length-append,
  length-drop, le→ltb_false, ltb, ltb_false→le, not, refl, subst, true, ℕ, ◌++◌, ◌+◌, ◌-◌, ◌<◌,
  ◌==◌, ◌∙◌, ◌∷◌, ◌≡◌, ◌≤◌,
}
use protoc_gen_codec.Message.Kinds.{
  bad_tag, emit_bool_field, emit_fixed64_field, emit_varint_field, fixed64_case, size_bool_field,
  size_fixed64_field, size_varint_field, varint_case,
}
use protoc_gen_codec.Runtime.Varint.{IsU64}
use protoc_gen_codec.Runtime.Varint.Groups.{varint, varint_one_byte}
use protoc_gen_codec.Runtime.Varint.Size.{size_varint-length}
use protoc_gen_codec.Wire.Emit.{Writer, into, little_endian, push, put_fixed, put_varint, ◌⨾◌}
use protoc_gen_codec.Wire.Emit.Laws.{
  Appends, Appends-into, Appends-push, Appends-when, Appends-⨾, Writes, Writes-put_fixed,
  Writes-put_varint, length-little_endian,
}
use protoc_gen_codec.Wire.Loop.{Switch, done}
use protoc_gen_codec.Wire.Loop.Laws.{Takes, Takes-if, Takes-tag, tag_of}
use protoc_gen_codec.Wire.Loop.Safe.{Ends, Ends-if, Ends-varint}
use protoc_gen_codec.Wire.Read.Laws.{At, get_fixed-little_endian, get_fixed-ok, read_varint-varint}

abbrev pub varint_wire : ℕ → ℕ → List ℕ
varint_wire tag x = if not (x == 0) then tag ∷ varint x else []

abbrev pub bool_wire : ℕ → Bool → List ℕ
bool_wire tag b = if b then tag ∷ 1 ∷ [] else []

abbrev pub fixed64_wire : ℕ → ℕ → List ℕ
fixed64_wire tag x = if not (x == 0) then tag ∷ little_endian 8 x else []

pub length-varint_wire : (tag x : ℕ) → IsU64 x → size_varint_field x ≡ length (varint_wire tag x)
unfolding size_varint_field
length-varint_wire tag x h = ground (arith, size_varint-length x h)

pub length-bool_wire : (tag : ℕ) (b : Bool) → size_bool_field b ≡ length (bool_wire tag b)
unfolding size_bool_field
length-bool_wire tag true = refl
length-bool_wire tag false = refl

pub length-fixed64_wire : (tag x : ℕ) → size_fixed64_field x ≡ length (fixed64_wire tag x)
unfolding size_fixed64_field
length-fixed64_wire tag x = ground (arith, length-little_endian 8 x)

-- A tag of one byte, and what is written behind it.
pub Appends-tagged :
    (tag : ℕ) (f : Writer) (bs : List ℕ) → Writes f bs → Appends (push tag ⨾ into f) (tag ∷ bs)
Appends-tagged tag f bs h = Appends-⨾ (Appends-push tag) (Appends-into h)

pub Appends-varint_field :
    (tag x : ℕ) → IsU64 x → Appends (emit_varint_field tag x) (varint_wire tag x)
unfolding emit_varint_field
Appends-varint_field tag x h =
    Appends-when (not (x == 0))
      (Appends-tagged tag (put_varint x) (varint x) (Writes-put_varint x h))

pub Appends-bool_field : (tag : ℕ) (b : Bool) → Appends (emit_bool_field tag b) (bool_wire tag b)
unfolding emit_bool_field
Appends-bool_field tag b = Appends-when b (Appends-⨾ (Appends-push tag) (Appends-push 1))

pub Appends-fixed64_field : (tag x : ℕ) → Appends (emit_fixed64_field tag x) (fixed64_wire tag x)
unfolding emit_fixed64_field
Appends-fixed64_field tag x =
    Appends-when (not (x == 0))
      (Appends-tagged tag (put_fixed 8 x) (little_endian 8 x) (Writes-put_fixed 8 x))

module _ {ℓ} {M : Type ℓ} (name : String) (num : ℕ) (body : List ℕ) (m : M) (set : ℕ → M) where
  pub varint_case-varint :
      (i x : ℕ) (rest : List ℕ)
      → IsU64 x
      → At body i (varint x ++ rest)
      → varint_case name num body 0 i m set ≡ done (set x) (i + length (varint x))
  unfolding varint_case
  varint_case-varint i x rest h at = rw (read_varint-varint _ body i x rest h at)

  pub fixed64_case-little_endian :
      (i x : ℕ) (rest : List ℕ)
      → IsU64 x
      → At body i (little_endian 8 x ++ rest)
      → fixed64_case name num body 1 i m set ≡ done (set x) (i + length (little_endian 8 x))
  unfolding fixed64_case
  fixed64_case-little_endian i x rest h at = rw (
    le→ltb_false (length body - i) 8 (room i x rest at),
    get_fixed-little_endian 8 body i x rest h at,
    length-little_endian 8 x,
  )
    where
      room : (i x : ℕ) (rest : List ℕ) → At body i (little_endian 8 x ++ rest) → 8 ≤ length body - i
      room i x rest (hi, at) = omega (
        arith,
        length-drop i body,
        ap length at,
        length-append (little_endian 8 x) rest,
        length-little_endian 8 x,
      )

  -- The cases stay within the body on any input.
  pub Ends-varint_case :
      (wire_type i : ℕ)
      → i ≤ length body
      → Ends i (length body) (varint_case name num body wire_type i m set)
  unfolding varint_case
  Ends-varint_case wire_type i h =
      Ends-if i (length body) (not (wire_type == 0)) _ _ tt
        (Ends-varint body i m h _ (λ v. set v.0))

  pub Ends-fixed64_case :
      (wire_type i : ℕ)
      → i ≤ length body
      → Ends i (length body) (fixed64_case name num body wire_type i m set)
  unfolding fixed64_case
  Ends-fixed64_case wire_type i h =
      Ends-if i (length body) (not (wire_type == 1)) _ _ tt
        (elim (Bool-cases (ltb (length body - i) 8)) [
          | inl short ↦ rw short tt
          | inr room ↦
              rw
                (room, get_fixed-ok 8 body i (omega (arith, ltb_false→le (length body - i) 8 room)))
                (omega (arith, ltb_false→le (length body - i) 8 room))
        ])

-- The whole field, as the loop takes it: left out at the zero value, which the receiver then has.
module _ {ℓ} {M : Type ℓ} (body : List ℕ) (switch : Switch M) (name : String) (num : ℕ)
    (small : num < 16) where
  pub Takes-varint_field :
      (m m' : M) (set : ℕ → M) (x : ℕ)
      → IsU64 x
      → ((i : ℕ) → switch num 0 i m ≡ varint_case name num body 0 i m set)
      → set x ≡ m'
      → (x ≡ 0 → m ≡ m')
      → Takes bad_tag body switch (varint_wire (tag_of num 0) x) m m'
  Takes-varint_field m m' set x h e p q =
      Takes-if (not (x == 0))
        (λ _. Takes-tag num 0 (varint x) (omega arith) (omega arith) λ i rest at.
          e i
          ∙ varint_case-varint name num body m set i x rest h at
          ∙ ap (λ u. done u (i + length (varint x))) p)
        (λ z. q (ground arith))

  pub Takes-fixed64_field :
      (m m' : M) (set : ℕ → M) (x : ℕ)
      → IsU64 x
      → ((i : ℕ) → switch num 1 i m ≡ fixed64_case name num body 1 i m set)
      → set x ≡ m'
      → (x ≡ 0 → m ≡ m')
      → Takes bad_tag body switch (fixed64_wire (tag_of num 1) x) m m'
  Takes-fixed64_field m m' set x h e p q =
      Takes-if (not (x == 0))
        (λ _. Takes-tag num 1 (little_endian 8 x) (omega arith) (omega arith) λ i rest at.
          e i
          ∙ fixed64_case-little_endian name num body m set i x rest h at
          ∙ ap (λ u. done u (i + length (little_endian 8 x))) p)
        (λ z. q (ground arith))

  pub Takes-bool_field :
      (m m' : M) (set : ℕ → M) (b : Bool)
      → ((i : ℕ) → switch num 0 i m ≡ varint_case name num body 0 i m set)
      → (b ≡ true → set 1 ≡ m')
      → (b ≡ false → m ≡ m')
      → Takes bad_tag body switch (bool_wire (tag_of num 0) b) m m'
  Takes-bool_field m m' set b e p q =
      Takes-if b
        (λ t.
          subst (λ bs. Takes bad_tag body switch (tag_of num 0 ∷ bs) m m')
            (varint_one_byte 1 (omega arith))
            (Takes-tag num 0 (varint 1) (omega arith) (omega arith) λ i rest at.
              e i
              ∙ varint_case-varint name num body m set i 1 rest (omega arith) at
              ∙ ap (λ u. done u (i + length (varint 1))) (p t)))
        q
