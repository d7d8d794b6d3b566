-- ===== src/Message/PreScan/Counts.antt =====
-- On the bytes of a message the scan counts the elements of the field.
use native.Mathlib.Nat.{add_assoc}
use protoc_gen_codec.Base.{
  All, Bool, List, Option, [], ap, append_assoc, arith, false, if◌then◌else◌, length, length-append,
  le→ltb_false, ltb, none, refl, some, subst, suc, true, ℕ, ◌++◌, ◌+◌, ◌-◌, ◌<◌, ◌==◌, ◌∙◌, ◌∷◌,
  ◌≡◌,
}
use protoc_gen_codec.Message.Kinds.{bad_tag}
use protoc_gen_codec.Message.Kinds.Bytes.{IsShort, bytes_wire, element_wire}
use protoc_gen_codec.Message.Kinds.Delimited.{room_behind}
use protoc_gen_codec.Message.Parts.Nested.{IsSent, pointer_wire, pointers_after, pointers_wire}
use protoc_gen_codec.Message.Parts.Numeric.{AllOption}
use protoc_gen_codec.Message.PreScan.{counted_by, pre_count, pre_switch}
use protoc_gen_codec.Runtime.Varint.Groups.{varint}
use protoc_gen_codec.Wire.Loop.{done}
use protoc_gen_codec.Wire.Loop.Laws.{
  Takes, Takes-append, Takes-eq, Takes-if, Takes-nil, Takes-tag, decode_fields_lem, tag_of,
}
use protoc_gen_codec.Wire.Read.Laws.{At, At-append, read_varint-varint}

module _ (counted : ℕ) (body : List ℕ) where
  abbrev Scans : List ℕ → ℕ → ℕ → Type 0
  Scans bs count count' = Takes bad_tag body (pre_switch counted body) bs count count'

  pre_switch-payload :
      (num i count : ℕ) (s rest : List ℕ)
      → IsShort s
      → At body i ((varint (length s) ++ s) ++ rest)
      → pre_switch counted body num 2 i count
        ≡ done (if num == counted then suc count else count) (i + length (varint (length s) ++ s))
  unfolding pre_switch
  pre_switch-payload num i count s rest h at =
      let head = varint (length s) in
      let at' : At body i (head ++ (s ++ rest)) = (at.0, at.1 ∙ append_assoc head s rest) in
      let j = i + length head in
      let behind = At-append body i head (s ++ rest) at' in
      rw (
        read_varint-varint _ body i (length s) (s ++ rest) (omega arith) at',
        le→ltb_false (length body - j) (length s) (room_behind body j s rest behind),
        length-append head s,
        add_assoc i (length head) (length s),
      )

  pub element-Scans :
      (num count : ℕ) (s : List ℕ)
      → num < 16
      → IsShort s
      → Scans (element_wire (tag_of num 2) s) count (if num == counted then suc count else count)
  element-Scans num count s small h =
      Takes-tag num 2 _ (omega arith) (omega arith)
        λ i rest at. pre_switch-payload num i count s rest h at

  -- A singular field of another number: a string, or a nested message.
  pub bytes-Scans :
      (num count : ℕ) (s : List ℕ)
      → num < 16
      → IsShort s
      → (num == counted) ≡ false
      → Scans (bytes_wire (tag_of num 2) s) count count
  bytes-Scans num count s small h other =
      Takes-if (ltb 0 (length s))
        (λ _.
          subst (Scans (element_wire (tag_of num 2) s) count)
            (ap (λ (b : Bool). if b then suc count else count) other)
            (element-Scans num count s small h))
        (λ _. refl)

  module _ {ℓ} {N : Type ℓ} (IsValid : N → Type 0) (wire : N → List ℕ) (num : ℕ)
      (small : num < 16) where
    pub pointer-Scans :
        (count : ℕ) (p : Option N)
        → AllOption (IsSent IsValid wire) p
        → (num == counted) ≡ false
        → Scans (pointer_wire wire (tag_of num 2) p) count count
    pointer-Scans count none v other = Takes-nil
    pointer-Scans count (some x) v other = bytes-Scans num count (wire x) small v.1 other

    pub pointers-Scans :
        (after : N → N) (count : ℕ) (ps : List (Option N))
        → All (AllOption (IsSent IsValid wire)) ps
        → (num == counted) ≡ true
        → Scans
            (pointers_wire wire (tag_of num 2) ps)
            count
            (count + length (pointers_after after ps))
    unfolding pointers_after
    pointers-Scans after count [] v same = Takes-eq (omega arith)
    pointers-Scans after count (none ∷ ps) v same = pointers-Scans after count ps v.1 same
    pointers-Scans after count (some x ∷ ps) v same =
        subst (Scans (pointers_wire wire (tag_of num 2) (some x ∷ ps)) count) (omega arith) (
          Takes-append
            (subst (Scans (element_wire (tag_of num 2) (wire x)) count)
              (ap (λ (b : Bool). if b then suc count else count) same)
              (element-Scans num count (wire x) small v.0.1))
            (pointers-Scans after (suc count) ps v.1 same))

pub pre_count_lem :
    (counted : ℕ) (body : List ℕ) (count : ℕ)
    → Takes bad_tag body (pre_switch counted body) body 0 count
    → pre_count counted body ≡ some count
unfolding pre_count
pre_count_lem counted body count t = ap counted_by (decode_fields_lem t)
