-- ===== src/Message/Kinds/Delimited.antt =====
-- The cases of length-delimited fields: they read back what was written, and stay within the body.
use native.Mathlib.Nat.{add_assoc, zero-add}
use Prim.Native.String.{String}
use protoc_gen_codec.Base.{
  All, Bool-cases, List, [], ap, append-nil, append_assoc, arith, inl, inr, length, length-append,
  length-drop, length_zero, le→ltb_false, ltb, ltb_false→le, not, refl, subst, sym, ℕ, ◌++◌, ◌+◌,
  ◌-◌, ◌<◌, ◌==◌, ◌∙◌, ◌∷◌, ◌≡◌, ◌≤◌,
}
use protoc_gen_codec.Message.Kinds.{
  bad_tag, bytes_case, digest_case, from_body, from_slab, is_zero_digest, zero_digest,
}
use protoc_gen_codec.Message.Kinds.Bytes.{
  IsShort, bytes_wire, digest_wire, element_wire, is_zero_digest-zero, repeated_wire,
}
use protoc_gen_codec.Runtime.Errors.{Res, ok}
use protoc_gen_codec.Runtime.Varint.Groups.{varint}
use protoc_gen_codec.Wire.Loop.{Switch, done}
use protoc_gen_codec.Wire.Loop.Laws.{Takes, Takes-append, Takes-eq, Takes-if, Takes-tag, tag_of}
use protoc_gen_codec.Wire.Loop.Safe.{Ends, Ends-if, Ends-reading, read_varint_within}
use protoc_gen_codec.Wire.Read.{read_varint, slice}
use protoc_gen_codec.Wire.Read.Laws.{At, At-append, read_varint-varint, slice-append, slice-ok}
use protoc_gen_codec.Wire.Slab.{InSlab}

-- `read` finds the bytes `s` where they stand, and does not panic within the body.
pub record ReadsBody (body : List ℕ) (read : ℕ → ℕ → Res (List ℕ)) : Type 0 where
  pub finds : (i : ℕ) (s rest : List ℕ) → At body i (s ++ rest) → read i (length s) ≡ ok s
  pub within : (i v : ℕ) → i + v ≤ length body → (s : List ℕ) × (read i v ≡ ok s)

-- The slab holds the body behind `front`, at whose end `slabOff` points.
from_slab-ReadsBody :
    (front body back : List ℕ) → ReadsBody body (from_slab (front ++ (body ++ back)) (length front))
unfolding from_slab
from_slab-ReadsBody front body back = record {
  finds = λ i s rest at. slice-append front body back i s rest at;
  within = λ i v h. (
    _,
    slice-ok (front ++ (body ++ back)) (length front + i) (length front + i + v) (omega arith)
        (omega (arith, length-append front (body ++ back), length-append body back)),
  );
}

pub InSlab-ReadsBody :
    (body slab : List ℕ) (slab_off : ℕ)
    → InSlab body slab slab_off
    → ReadsBody body (from_slab slab slab_off)
InSlab-ReadsBody body slab slab_off h =
    rw (h.holds, h.offset) (from_slab-ReadsBody h.front body h.back)

pub from_body-ReadsBody : (body : List ℕ) → ReadsBody body (from_body body)
unfolding from_body
from_body-ReadsBody body = record {
  finds = λ i s rest at. (rw (append-nil, zero-add) at (slice-append [] body [] i s rest at));
  within = λ i v h. (_, slice-ok body i (i + v) (omega arith) h);
}

pub finds_slice :
    (body : List ℕ) (i : ℕ) (s rest : List ℕ)
    → At body i (s ++ rest)
    → slice body i (i + length s) ≡ ok s
unfolding from_body
finds_slice body i s rest at = (from_body-ReadsBody body).finds i s rest at

pub room_behind :
    (body : List ℕ) (i : ℕ) (s rest : List ℕ) → At body i (s ++ rest) → length s ≤ length body - i
room_behind body i s rest (hi, at) =
    omega (arith, length-drop i body, ap length at, length-append s rest)

module _ {ℓ} {M : Type ℓ} (name : String) (num : ℕ) (body : List ℕ) (m : M) (set : List ℕ → M) where
  pub bytes_case-element :
      (read : ℕ → ℕ → Res (List ℕ)) (i : ℕ) (s rest : List ℕ)
      → ReadsBody body read
      → IsShort s
      → At body i ((varint (length s) ++ s) ++ rest)
      → bytes_case name num body 2 i m read set ≡ done (set s) (i + length (varint (length s) ++ s))
  unfolding bytes_case
  bytes_case-element read i s rest r h at =
      let at' : At body i (varint (length s) ++ (s ++ rest)) =
        (at.0, at.1 ∙ append_assoc (varint (length s)) s rest) in
      let j = i + length (varint (length s)) in
      let behind = At-append body i (varint (length s)) (s ++ rest) at' in
      rw (
        read_varint-varint _ body i (length s) (s ++ rest) (omega arith) at',
        le→ltb_false (length body - j) (length s) (room_behind body j s rest behind),
        r.finds j s rest behind,
        length-append (varint (length s)) s,
        add_assoc i (length (varint (length s))) (length s),
      )

  pub digest_case-digest :
      (i : ℕ) (d rest : List ℕ)
      → length d ≡ 32
      → At body i ((varint 32 ++ d) ++ rest)
      → digest_case name num body 2 i m set ≡ done (set d) (i + length (varint 32 ++ d))
  unfolding digest_case
  digest_case-digest i d rest h at =
      let at' : At body i (varint 32 ++ (d ++ rest)) =
        (at.0, at.1 ∙ append_assoc (varint 32) d rest) in
      let j = i + length (varint 32) in
      let behind = At-append body i (varint 32) (d ++ rest) at' in
      let found : slice body j (j + 32) ≡ ok d =
        subst (λ n. slice body j (j + n) ≡ ok d) h (finds_slice body j d rest behind) in
      rw (
        read_varint-varint _ body i 32 (d ++ rest) (omega arith) at',
        le→ltb_false (length body - j) 32 (omega (arith, room_behind body j d rest behind)),
        found,
        length-append (varint 32) d,
        h,
        add_assoc i (length (varint 32)) 32,
      )

  pub Ends-bytes_case :
      (read : ℕ → ℕ → Res (List ℕ)) (wire_type i : ℕ)
      → ReadsBody body read
      → i ≤ length body
      → Ends i (length body) (bytes_case name num body wire_type i m read set)
  unfolding bytes_case
  Ends-bytes_case read wire_type i r h = Ends-if i (length body) (not (wire_type == 2)) _ _ tt (
      Ends-reading i (i + 1) (length body) (λ (v : ℕ × ℕ). v.1) (read_varint _ body i) m _
        (read_varint_within _ body i h)
        λ v lo hi. elim (Bool-cases (ltb (length body - v.1) v.0)) [
          | inl short ↦ rw short tt
          | inr room ↦
              let fits : v.1 + v.0 ≤ length body =
                omega (arith, ltb_false→le (length body - v.1) v.0 room) in
              rw (room, (r.within v.1 v.0 fits).1) (omega arith)
        ])

  pub Ends-digest_case :
      (wire_type i : ℕ)
      → i ≤ length body
      → Ends i (length body) (digest_case name num body wire_type i m set)
  unfolding digest_case
  Ends-digest_case wire_type i h = Ends-if i (length body) (not (wire_type == 2)) _ _ tt (
      Ends-reading i (i + 1) (length body) (λ (v : ℕ × ℕ). v.1) (read_varint _ body i) m _
        (read_varint_within _ body i h)
        λ v lo hi.
          Ends-if i (length body) (not (v.0 == 32)) _ _ tt
            (elim (Bool-cases (ltb (length body - v.1) 32)) [
              | inl short ↦ rw short tt
              | inr room ↦
                  let fits : v.1 + 32 ≤ length body =
                    omega (arith, ltb_false→le (length body - v.1) 32 room) in
                  rw (room, slice-ok body v.1 (v.1 + 32) (omega arith) fits) (omega arith)
            ]))

-- The whole field, as the loop takes it.
module _ {ℓ} {M : Type ℓ} (body : List ℕ) (switch : Switch M) (name : String) (num : ℕ)
    (small : num < 16) where
  pub Takes-element :
      (read : ℕ → ℕ → Res (List ℕ)) (m m' : M) (set : List ℕ → M) (s : List ℕ)
      → ReadsBody body read
      → IsShort s
      → ((i : ℕ) → switch num 2 i m ≡ bytes_case name num body 2 i m read set)
      → set s ≡ m'
      → Takes bad_tag body switch (element_wire (tag_of num 2) s) m m'
  Takes-element read m m' set s r h e p =
      Takes-tag num 2 (varint (length s) ++ s) (omega arith) (omega arith) λ i rest at.
        e i
        ∙ bytes_case-element name num body m set read i s rest r h at
        ∙ ap (λ u. done u (i + length (varint (length s) ++ s))) p

  pub Takes-bytes_field :
      (read : ℕ → ℕ → Res (List ℕ)) (m m' : M) (set : List ℕ → M) (s : List ℕ)
      → ReadsBody body read
      → IsShort s
      → ((i : ℕ) → switch num 2 i m ≡ bytes_case name num body 2 i m read set)
      → set s ≡ m'
      → (s ≡ [] → m ≡ m')
      → Takes bad_tag body switch (bytes_wire (tag_of num 2) s) m m'
  Takes-bytes_field read m m' set s r h e p q =
      Takes-if (ltb 0 (length s)) (λ _. Takes-element read m m' set s r h e p)
        (λ z. q (length_zero s (omega (arith, ltb_false→le 0 (length s) z))))

  pub Takes-digest_field :
      (m m' : M) (set : List ℕ → M) (d : List ℕ)
      → length d ≡ 32
      → ((i : ℕ) → switch num 2 i m ≡ digest_case name num body 2 i m set)
      → set d ≡ m'
      → (d ≡ zero_digest → m ≡ m')
      → Takes bad_tag body switch (digest_wire (tag_of num 2) d) m m'
  Takes-digest_field m m' set d h e p q =
      Takes-if (not (is_zero_digest d))
        (λ _. Takes-tag num 2 (varint 32 ++ d) (omega arith) (omega arith) λ i rest at.
          e i
          ∙ digest_case-digest name num body m set i d rest h at
          ∙ ap (λ u. done u (i + length (varint 32 ++ d))) p)
        (λ z. q (is_zero_digest-zero d (ground (arith, z)) h))

  -- Each element is appended to the list `got`, which `put` stores in the receiver.
  pub Takes-repeated_field :
      (read : ℕ → ℕ → Res (List ℕ)) (put : List (List ℕ) → M) (got ss : List (List ℕ))
      → ReadsBody body read
      → All IsShort ss
      → ((i : ℕ) (got : List (List ℕ))
          → switch num 2 i (put got)
            ≡ bytes_case name num body 2 i (put got) read (λ s. put (got ++ (s ∷ []))))
      → Takes bad_tag body switch (repeated_wire (tag_of num 2) ss) (put got) (put (got ++ ss))
  Takes-repeated_field read put got [] r h e = Takes-eq (ap put (sym (append-nil got)))
  Takes-repeated_field read put got (s ∷ ss) r h e =
      subst
        (λ t. Takes bad_tag body switch (repeated_wire (tag_of num 2) (s ∷ ss)) (put got) (put t))
        (append_assoc got (s ∷ []) ss)
        (Takes-append
          (Takes-element read (put got) _ (λ s. put (got ++ (s ∷ []))) s r h.0 (λ i. e i got) refl)
          (Takes-repeated_field read put (got ++ (s ∷ [])) ss r h.1 e))
