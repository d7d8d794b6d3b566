-- ===== src/Message/Parts/Packed.antt =====
-- Packed fields as parts of a message.
use Prim.Native.String.{String}
use protoc_gen_codec.Base.{
  All, List, [], ap, arith, length, length_zero, ltb, ltb_false→le, sym, ℕ, ◌++◌, ◌<◌, ◌∙◌, ◌∷◌,
  ◌≡◌, ◌≤◌,
}
use protoc_gen_codec.Message.Kinds.Bytes.{IsShort}
use protoc_gen_codec.Message.Kinds.Packed.{emit_packed_field, packed_case, size_packed_field}
use protoc_gen_codec.Message.Kinds.Packed.Laws.{
  Appends-packed_field, Ends-packed_case, length-packed_wire, packed_body, packed_case-body,
  packed_wire,
}
use protoc_gen_codec.Message.Parts.{Case, Part, SwitchOf}
use protoc_gen_codec.Message.Parts.Stays.{Stays}
use protoc_gen_codec.Runtime.Varint.{IsU64}
use protoc_gen_codec.Wire.Loop.Laws.{Takes-if, Takes-tag, tag_of}

module _ {ℓ} {M : Type ℓ} {switch : SwitchOf M} (name : String) (num : ℕ) (small : num < 16) where
  pub packed_part :
      (code decode : ℕ → ℕ) (put : List ℕ → M) (add : M → ℕ → M) (vs : List ℕ)
      → ((got : List ℕ) (x : ℕ) → add (put got) x ≡ put (got ++ (decode x ∷ [])))
      → All (λ v. IsU64 (code v) × (decode (code v) ≡ v)) vs
      → IsShort (packed_body code vs)
      → Case switch num 2
          (put [])
          (λ body slab slab_off i. packed_case name num body add 2 i (put []))
      → Part switch
          (size_packed_field code vs)
          (emit_packed_field code (tag_of num 2) vs)
          (packed_wire code (tag_of num 2) vs)
          (put [])
          (put vs)
  packed_part code decode put add vs adds h short e =
      let fits = codes code decode vs h in
      record {
        sized = length-packed_wire code (tag_of num 2) vs fits short;
        writes = Appends-packed_field code (tag_of num 2) vs fits short;
        reads = λ body slab slab_off r.
            Takes-if (ltb 0 (length vs))
              (λ _. Takes-tag num 2 _ (omega arith) (omega arith) λ i rest at.
                e body slab slab_off i
                ∙ packed_case-body name num body put add code decode adds vs rest i h short at)
              (λ z. ap put (sym (length_zero vs (omega (arith, ltb_false→le 0 (length vs) z)))));
      }
    where
      codes :
          (code decode : ℕ → ℕ) (vs : List ℕ)
          → All (λ v. IsU64 (code v) × (decode (code v) ≡ v)) vs
          → All (λ v. IsU64 (code v)) vs
      codes code decode [] h = tt
      codes code decode (v ∷ vs) h = (h.0.0, codes code decode vs h.1)

pub packed-Stays {ℓ} :
    {M : Type ℓ} (name : String) (num : ℕ) (body : List ℕ) (wire_type i : ℕ) (m : M)
    (add : M → ℕ → M)
    → i ≤ length body
    → Stays i (length body) (packed_case name num body add wire_type i m)
packed-Stays name num body wire_type i m add h = record {
  ends = Ends-packed_case name num body add wire_type i m h;
}
