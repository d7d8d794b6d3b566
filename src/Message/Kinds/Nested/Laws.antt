-- ===== src/Message/Kinds/Nested/Laws.antt =====
-- A nested message is written with its length, read back from its place in the slab, and its
-- decoding ends within the body if the one of its type does.
use native.Mathlib.Nat.{add_assoc}
use Prim.Native.String.{String}
use protoc_gen_codec.Base.{
  Bool-cases, List, ap, append_assoc, arith, inl, inr, length, length-append, le→ltb_false, ltb,
  ltb_false→le, not, ℕ, ◌++◌, ◌+◌, ◌-◌, ◌<◌, ◌==◌, ◌∙◌, ◌≡◌, ◌≤◌,
}
use protoc_gen_codec.Message.{Methods}
use protoc_gen_codec.Message.Kinds.Bytes.{IsShort, element_wire}
use protoc_gen_codec.Message.Kinds.Delimited.{finds_slice, room_behind}
use protoc_gen_codec.Message.Kinds.Nested.{emit_message, message_case, size_message}
use protoc_gen_codec.Message.Laws.{EncodesAt}
use protoc_gen_codec.Runtime.Errors.{in_field}
use protoc_gen_codec.Runtime.Varint.{size_varint}
use protoc_gen_codec.Runtime.Varint.Groups.{varint}
use protoc_gen_codec.Runtime.Varint.Size.{size_varint-length}
use protoc_gen_codec.Wire.Emit.Laws.{
  Appends, Appends-into, Appends-push, Appends-⨾, Writes-put_varint,
}
use protoc_gen_codec.Wire.Loop.{Run, and_then, done, failed, panicked, spent}
use protoc_gen_codec.Wire.Loop.Safe.{Ends, Ends-if, Ends-reading, EndsAt, read_varint_within}
use protoc_gen_codec.Wire.Read.{read_varint}
use protoc_gen_codec.Wire.Read.Laws.{At, At-append, read_varint-varint}
use protoc_gen_codec.Wire.Slab.{InSlab, InSlab-At, slice-InSlab}

module _ {ℓ} {N : Type ℓ} {c : Methods N} where
  pub length-message :
      {x y : N} {bs : List ℕ} (tag : ℕ)
      → EncodesAt c x bs y
      → IsShort bs
      → size_message c x ≡ length (element_wire tag bs)
  unfolding size_message
  length-message {bs = bs} tag e h = omega (
    arith,
    e.size_at,
    ap size_varint e.size_at,
    size_varint-length (length bs) (omega arith),
    length-append (varint (length bs)) bs,
  )

  pub Appends-message :
      {x y : N} {bs : List ℕ} (tag : ℕ)
      → EncodesAt c x bs y
      → IsShort bs
      → Appends (emit_message c tag x) (element_wire tag bs)
  unfolding emit_message
  Appends-message {bs = bs} tag e h = rw e.size_at (
      Appends-⨾
        (Appends-⨾ (Appends-push tag) (Appends-into (Writes-put_varint (length bs) (omega arith))))
        (Appends-into e.writes_at))

  module _ {κ} {M : Type κ} (name : String) (num : ℕ) (body slab : List ℕ) (slab_off : ℕ)
      (r : InSlab body slab slab_off) (m : M) (elem : N) (set : N → M) where
    pub message_case-message :
        {x y : N} {s : List ℕ} (i : ℕ) (rest : List ℕ)
        → EncodesAt c x s y
        → IsShort s
        → At body i ((varint (length s) ++ s) ++ rest)
        → message_case c name num body slab slab_off 2 i m elem set
          ≡ done (set y) (i + length (varint (length s) ++ s))
    unfolding message_case
    message_case-message {s = s} i rest e h at =
        let head = varint (length s) in
        let at' : At body i (head ++ (s ++ rest)) = (at.0, at.1 ∙ append_assoc head s rest) in
        let j = i + length head in
        let behind = At-append body i head (s ++ rest) at' in
        rw (
          read_varint-varint _ body i (length s) (s ++ rest) (omega arith) at',
          le→ltb_false (length body - j) (length s) (room_behind body j s rest behind),
          finds_slice body j s rest behind,
          e.reads_at elem slab (slab_off + j) (InSlab-At body slab slab_off j s rest r behind),
          length-append head s,
          add_assoc i (length head) (length s),
        )

module _ {ℓ κ} {N : Type ℓ} {M : Type κ} (c : Methods N) (name : String) (num : ℕ)
    (body slab : List ℕ) (slab_off : ℕ) (r : InSlab body slab slab_off) (m : M) (elem : N)
    (set : N → M) where
  Ends-nested :
      (i j l : ℕ) (run : Run N)
      → i ≤ j
      → j ≤ length body
      → EndsAt l run
      → Ends i
          (length body)
          (and_then run (λ e x. failed (in_field name num e) (set x)) (λ x k. done (set x) j))
  Ends-nested i j l (done x k) lo hi h = (lo, hi)
  Ends-nested i j l (failed e x) lo hi h = tt
  Ends-nested i j l panicked lo hi h = h
  Ends-nested i j l spent lo hi h = h

  -- The nested body is shorter than the one that it stands in.
  pub Ends-message_case :
      (wire_type i : ℕ)
      → i ≤ length body
      → ((s : List ℕ) (off : ℕ)
          → InSlab s slab off
          → length s < length body
          → EndsAt (length s) (c.unmarshal_internal s slab off elem))
      → Ends i (length body) (message_case c name num body slab slab_off wire_type i m elem set)
  unfolding message_case
  Ends-message_case wire_type i h nested_ends =
      Ends-if i (length body) (not (wire_type == 2)) _ _ tt (
        Ends-reading i (i + 1) (length body) (λ (v : ℕ × ℕ). v.1) (read_varint _ body i) m _
          (read_varint_within _ body i h)
          λ v lo hi. elim (Bool-cases (ltb (length body - v.1) v.0)) [
            | inl short ↦ rw short tt
            | inr room ↦
                let fits : v.1 + v.0 ≤ length body =
                  omega (arith, ltb_false→le (length body - v.1) v.0 room) in
                let (s, found, len, inside) = slice-InSlab body slab slab_off v.1 v.0 r fits in
                rw (room, found)
                  (Ends-nested i (v.1 + v.0) (length s) _ (omega arith) fits
                    (nested_ends s (slab_off + v.1) inside (omega (arith, len))))
          ])
