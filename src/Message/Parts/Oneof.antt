-- ===== src/Message/Parts/Oneof.antt =====
-- The branches of a oneof as parts of a message: sent whatever their value.
use Prim.Native.String.{String}
use protoc_gen_codec.Base.{Bool, List, false, if◌then◌else◌, refl, some, true, ℕ, ◌+◌, ◌<◌, ◌∷◌}
use protoc_gen_codec.Message.Kinds.{
  bytes_case, emit_element, fixed64_case, from_body, from_slab, size_element, varint_case,
}
use protoc_gen_codec.Message.Kinds.Bytes.{
  Appends-element, IsShort, element_wire, length-element_wire,
}
use protoc_gen_codec.Message.Kinds.Delimited.{InSlab-ReadsBody, Takes-element, from_body-ReadsBody}
use protoc_gen_codec.Message.Kinds.Numeric.{
  emit_optional_fixed64_field, size_optional_fixed64_field,
}
use protoc_gen_codec.Message.Parts.{Case, Part, SwitchOf}
use protoc_gen_codec.Message.Parts.Numeric.{coded, optional_fixed64_part}
use protoc_gen_codec.Runtime.Varint.{IsU64, size_varint}
use protoc_gen_codec.Runtime.Varint.Groups.{varint}
use protoc_gen_codec.Wire.Emit.{Emit, into, little_endian, push, put_fixed, put_varint, ◌⨾◌}
use protoc_gen_codec.Wire.Loop.Laws.{tag_of}

pub Part-if {ℓ} :
    {M : Type ℓ} {switch : SwitchOf M} {x y : ℕ} {e f : Emit} {bs cs : List ℕ} {m m' m'' : M}
    (c : Bool)
    → Part switch x e bs m m'
    → Part switch y f cs m m''
    → Part switch
        (if c then x else y)
        (if c then e else f)
        (if c then bs else cs)
        m
        (if c then m' else m'')
Part-if true p q = p
Part-if false p q = q

module _ {ℓ} {M : Type ℓ} {switch : SwitchOf M} (name : String) (num : ℕ) (small : num < 16)
    (m : M) where
  pub text_branch :
      (set : List ℕ → M) (s : List ℕ)
      → IsShort s
      → Case switch num 2 m
          (λ body slab slab_off i. bytes_case name num body 2 i m (from_slab slab slab_off) set)
      → Part switch
          (size_element s)
          (emit_element (tag_of num 2) s)
          (element_wire (tag_of num 2) s)
          m
          (set s)
  text_branch set s h e = record {
    sized = length-element_wire (tag_of num 2) s h;
    writes = Appends-element (tag_of num 2) s h;
    reads = λ body slab slab_off r.
        Takes-element body _ name num small _ m (set s) set s
          (InSlab-ReadsBody body slab slab_off r) h (e body slab slab_off) refl;
  }

  pub bytes_branch :
      (set : List ℕ → M) (s : List ℕ)
      → IsShort s
      → Case switch num 2 m
          (λ body slab slab_off i. bytes_case name num body 2 i m (from_body body) set)
      → Part switch
          (size_element s)
          (emit_element (tag_of num 2) s)
          (element_wire (tag_of num 2) s)
          m
          (set s)
  bytes_branch set s h e = record {
    sized = length-element_wire (tag_of num 2) s h;
    writes = Appends-element (tag_of num 2) s h;
    reads = λ body slab slab_off r.
        Takes-element body _ name num small _ m (set s) set s (from_body-ReadsBody body) h
          (e body slab slab_off) refl;
  }

  pub uint64_branch :
      (set : ℕ → M) (x : ℕ)
      → IsU64 x
      → Case switch num 0 m (λ body slab slab_off i. varint_case name num body 0 i m set)
      → Part switch
          (1 + size_varint x)
          (push (tag_of num 0) ⨾ into (put_varint x))
          (tag_of num 0 ∷ varint x)
          m
          (set x)
  uint64_branch set x h e = coded name num small m (set x) set x h e refl

  pub fixed64_branch :
      (set : ℕ → M) (x : ℕ)
      → IsU64 x
      → Case switch num 1 m (λ body slab slab_off i. fixed64_case name num body 1 i m set)
      → Part switch 9
          (push (tag_of num 1) ⨾ into (put_fixed 8 x))
          (tag_of num 1 ∷ little_endian 8 x)
          m
          (set x)
  unfolding size_optional_fixed64_field emit_optional_fixed64_field
  fixed64_branch set x h e = optional_fixed64_part name num small set m (some x) h e
