-- ===== src/Message/Kinds/Packed/Laws.antt =====
-- A packed field is written as its length says, read back, and read within the body.
use native.Mathlib.Nat.{add_assoc}
use Prim.Native.String.{String}
use protoc_gen_codec.Base.{
  All, Bool-cases, List, [], ap, append-nil, append_assoc, arith, if◌then◌else◌, inl, inr, length,
  length-append, le→ltb_false, ltb, ltb_false→le, lt→ltb, refl, suc, zero, ℕ, ◌++◌, ◌+◌, ◌-◌, ◌<◌,
  ◌==◌, ◌∙◌, ◌∷◌, ◌≡◌, ◌≤◌,
}
use protoc_gen_codec.Message.Kinds.Bytes.{IsShort}
use protoc_gen_codec.Message.Kinds.Delimited.{room_behind}
use protoc_gen_codec.Message.Kinds.Packed.{
  emit_packed_field, packed_case, packed_length, packed_loop, size_packed_field,
}
use protoc_gen_codec.Runtime.Varint.{IsU64}
use protoc_gen_codec.Runtime.Varint.Groups.{length-varint, varint}
use protoc_gen_codec.Runtime.Varint.Size.{size_varint-length}
use protoc_gen_codec.Wire.Emit.{each, into, put_varint}
use protoc_gen_codec.Wire.Emit.Laws.{
  Appends, Appends-into, Appends-nothing, Appends-push, Appends-when, Appends-⨾, Writes-put_varint,
  concat_map,
}
use protoc_gen_codec.Wire.Loop.{done}
use protoc_gen_codec.Wire.Loop.Safe.{
  Ends, Ends-if, Ends-reading, Ends-varint, Ends-weaken, read_varint_within,
}
use protoc_gen_codec.Wire.Read.{read_varint}
use protoc_gen_codec.Wire.Read.Laws.{At, At-append, read_varint-varint}

abbrev pub packed_body : (ℕ → ℕ) → List ℕ → List ℕ
packed_body code vs = concat_map (λ v. varint (code v)) vs

abbrev pub packed_wire : (ℕ → ℕ) → ℕ → List ℕ → List ℕ
packed_wire code tag vs =
    if ltb 0 (length vs)
    then tag ∷ (varint (length (packed_body code vs)) ++ packed_body code vs)
    else []

module _ (code : ℕ → ℕ) where
  pub packed_length-body :
      (vs : List ℕ)
      → All (λ v. IsU64 (code v)) vs
      → packed_length code vs ≡ length (packed_body code vs)
  unfolding packed_length
  packed_length-body [] h = refl
  packed_length-body (v ∷ vs) h = omega (
    arith,
    size_varint-length (code v) h.0,
    packed_length-body vs h.1,
    length-append (varint (code v)) (packed_body code vs),
  )

  pub length-packed_wire :
      (tag : ℕ) (vs : List ℕ)
      → All (λ v. IsU64 (code v)) vs
      → IsShort (packed_body code vs)
      → size_packed_field code vs ≡ length (packed_wire code tag vs)
  unfolding size_packed_field
  length-packed_wire tag vs h short = ground (
    arith,
    packed_length-body vs h,
    size_varint-length (packed_length code vs) (omega (arith, packed_length-body vs h)),
    ap (λ n. length (varint n)) (packed_length-body vs h),
    length-append (varint (length (packed_body code vs))) (packed_body code vs),
  )

  Appends-elements :
      (vs : List ℕ)
      → All (λ v. IsU64 (code v)) vs
      → Appends (each vs (λ v. into (put_varint (code v)))) (packed_body code vs)
  unfolding each
  Appends-elements [] h = Appends-nothing
  Appends-elements (v ∷ vs) h =
      Appends-⨾ (Appends-into (Writes-put_varint (code v) h.0)) (Appends-elements vs h.1)

  pub Appends-packed_field :
      (tag : ℕ) (vs : List ℕ)
      → All (λ v. IsU64 (code v)) vs
      → IsShort (packed_body code vs)
      → Appends (emit_packed_field code tag vs) (packed_wire code tag vs)
  unfolding emit_packed_field
  Appends-packed_field tag vs h short = Appends-when (ltb 0 (length vs)) (
      Appends-⨾
        (Appends-⨾ (Appends-push tag) (
          Appends-into (
            rw (packed_length-body vs h)
              (Writes-put_varint (length (packed_body code vs)) (omega arith)))))
        (Appends-elements vs h))

-- `put` stores the list read so far, and `decode` turns a varint into an element.
module _ {ℓ} {M : Type ℓ} (name : String) (num : ℕ) (body : List ℕ) (put : List ℕ → M)
    (add : M → ℕ → M) (code decode : ℕ → ℕ)
    (adds : (got : List ℕ) (x : ℕ) → add (put got) x ≡ put (got ++ (decode x ∷ []))) where
  packed_loop_stop :
      (fuel i end : ℕ) (m : M) → end ≤ i → packed_loop name num body add end fuel i m ≡ done m i
  unfolding packed_loop
  packed_loop_stop zero i end m h = rw (le→ltb_false i end h)
  packed_loop_stop (suc fuel) i end m h = rw (le→ltb_false i end h)

  packed_loop_step :
      (fuel i end x : ℕ) (got rest : List ℕ)
      → IsU64 x
      → At body i (varint x ++ rest)
      → i < end
      → packed_loop name num body add end (suc fuel) i (put got)
        ≡ packed_loop name num body add end fuel
            (i + length (varint x))
            (put (got ++ (decode x ∷ [])))
  unfolding packed_loop
  packed_loop_step fuel i end x got rest h at more =
      rw (lt→ltb i end more, read_varint-varint _ body i x rest h at, adds got x)

  packed_loop-body :
      (vs got rest : List ℕ) (fuel i end : ℕ)
      → All (λ v. IsU64 (code v) × (decode (code v) ≡ v)) vs
      → At body i (packed_body code vs ++ rest)
      → end ≡ i + length (packed_body code vs)
      → length vs ≤ fuel
      → packed_loop name num body add end fuel i (put got) ≡ done (put (got ++ vs)) end
  packed_loop-body [] got rest fuel i end h at e enough =
      packed_loop_stop fuel i end (put got) (omega arith)
      ∙ rw (append-nil) (ap (done (put got)) (omega arith))
  packed_loop-body (v ∷ vs) got rest zero i end h at e enough = absurd (omega arith)
  packed_loop-body (v ∷ vs) got rest (suc fuel) i end h at e enough =
      let tail = packed_body code vs in
      let at' : At body i (varint (code v) ++ (tail ++ rest)) =
        (at.0, at.1 ∙ append_assoc (varint (code v)) tail rest) in
      let len = length-append (varint (code v)) tail in
      packed_loop_step fuel i end (code v) got (tail ++ rest) h.0.0 at'
        (omega (arith, length-varint (code v), len))
      ∙ rw h.0.1 (
          packed_loop-body vs (got ++ (v ∷ [])) rest fuel (i + length (varint (code v))) end h.1
            (At-append body i (varint (code v)) (tail ++ rest) at') (omega (arith, len))
            (omega arith)
          ∙ rw (append_assoc got (v ∷ []) vs) refl)

  elements_count : (vs : List ℕ) → length vs ≤ length (packed_body code vs)
  elements_count [] = omega arith
  elements_count (v ∷ vs) = omega (
    arith,
    elements_count vs,
    length-append (varint (code v)) (packed_body code vs),
    length-varint (code v),
  )

  pub packed_case-body :
      (vs rest : List ℕ) (i : ℕ)
      → All (λ v. IsU64 (code v) × (decode (code v) ≡ v)) vs
      → IsShort (packed_body code vs)
      → At body i ((varint (length (packed_body code vs)) ++ packed_body code vs) ++ rest)
      → packed_case name num body add 2 i (put [])
        ≡ done (put vs) (i + length (varint (length (packed_body code vs)) ++ packed_body code vs))
  unfolding packed_case
  packed_case-body vs rest i h short at =
      let bs = packed_body code vs in
      let head = varint (length bs) in
      let at' : At body i (head ++ (bs ++ rest)) = (at.0, at.1 ∙ append_assoc head bs rest) in
      let behind = At-append body i head (bs ++ rest) at' in
      let room = room_behind body (i + length head) bs rest behind in
      rw
        (
          read_varint-varint _ body i (length bs) (bs ++ rest) (omega arith) at',
          le→ltb_false (length body - (i + length head)) (length bs) room,
          length-append head bs,
          ← add_assoc i (length head) (length bs),
        )
        (packed_loop-body vs [] rest (length body) (i + length head) (i + length head + length bs) h
          behind refl (omega (arith, elements_count vs)))

-- The loop and the case stay within the body on any input.
module _ {ℓ} {M : Type ℓ} (name : String) (num : ℕ) (body : List ℕ) (add : M → ℕ → M) where
  packed_loop-Ends :
      (fuel i end : ℕ) (m : M)
      → i ≤ length body
      → length body ≤ i + fuel
      → end ≤ length body
      → Ends i (length body) (packed_loop name num body add end fuel i m)
  unfolding packed_loop
  packed_loop-Ends zero i end m h enough le = rw (le→ltb_false i end (omega arith)) (omega arith)
  packed_loop-Ends (suc fuel) i end m h enough le =
      Ends-if i (length body) (ltb i end) _ _
        (Ends-reading i (i + 1) (length body) (λ (v : ℕ × ℕ). v.1) (read_varint _ body i) m _
          (read_varint_within _ body i h)
          λ v lo hi.
            Ends-weaken i v.1 (length body) _ (omega arith)
              (packed_loop-Ends fuel v.1 end (add m v.0) hi (omega arith) le))
        (omega arith)

  pub Ends-packed_case :
      (wire_type i : ℕ) (m : M)
      → i ≤ length body
      → Ends i (length body) (packed_case name num body add wire_type i m)
  unfolding packed_case
  Ends-packed_case wire_type i m h =
      Ends-if i (length body) (wire_type == 2) _ _
        (Ends-reading i (i + 1) (length body) (λ (v : ℕ × ℕ). v.1) (read_varint _ body i) m _
          (read_varint_within _ body i h)
          λ v lo hi. elim (Bool-cases (ltb (length body - v.1) v.0)) [
            | inl short ↦ rw short tt
            | inr room ↦ rw room (
                Ends-weaken i v.1 (length body) _ (omega arith) (
                  packed_loop-Ends (length body) v.1 (v.1 + v.0) m hi (omega arith)
                    (omega (arith, ltb_false→le (length body - v.1) v.0 room))))
          ])
        (Ends-if i (length body) (wire_type == 0) _ _ (Ends-varint body i m h _ (λ v. add m v.0))
          tt)
