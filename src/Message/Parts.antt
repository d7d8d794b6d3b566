-- ===== src/Message/Parts.antt =====
-- One field of a message with all that its methods do for it, and the fields in a row. A part takes
-- the receiver from `m`, where the field has its zero value, to `m'`, where it is read.
pub mod Stays
pub mod Numeric
pub mod Packed
pub mod Nested
pub mod Oneof
pub mod Maps
pub mod Entries
use native.Mathlib.Nat.{mod-eq_of_lt}
use Prim.Native.String.{String}
use protoc_gen_codec.Base.{
  All, Bool, List, [], ap, arith, false, length, length-append, not, refl, subst, sym, ℕ, ◌%◌, ◌++◌,
  ◌+◌, ◌<◌, ◌==◌, ◌^◌, ◌∷◌, ◌≡◌, ◌≤◌,
}
use protoc_gen_codec.Message.Kinds.{
  bad_tag, bytes_case, digest_case, emit_bool_field, emit_bytes_field, emit_digest_field,
  emit_fixed64_field, emit_repeated_field, emit_varint_field, fixed64_case, from_body, from_slab,
  size_bool_field, size_bytes_field, size_digest_field, size_fixed64_field, size_repeated_field,
  size_varint_field, varint_case, zero_digest,
}
use protoc_gen_codec.Message.Kinds.Bytes.{
  Appends-bytes_field, Appends-digest_field, Appends-repeated_field, IsShort, bytes_wire,
  digest_wire, length-bytes_wire, length-digest_wire, length-repeated_wire, repeated_wire,
}
use protoc_gen_codec.Message.Kinds.Delimited.{
  InSlab-ReadsBody, Takes-bytes_field, Takes-digest_field, Takes-repeated_field,
  from_body-ReadsBody,
}
use protoc_gen_codec.Message.Kinds.Scalar.{
  Appends-bool_field, Appends-fixed64_field, Appends-varint_field, Takes-bool_field,
  Takes-fixed64_field, Takes-varint_field, bool_wire, fixed64_wire, length-bool_wire,
  length-fixed64_wire, length-varint_wire, varint_wire,
}
use protoc_gen_codec.Runtime.Varint.{IsU64}
use protoc_gen_codec.Wire.Emit.{Emit, ◌⨾◌}
use protoc_gen_codec.Wire.Emit.Laws.{Appends, Appends-⨾}
use protoc_gen_codec.Wire.Loop.{Run, Switch}
use protoc_gen_codec.Wire.Loop.Laws.{Takes, Takes-append, tag_of}
use protoc_gen_codec.Wire.Slab.{InSlab}

-- A type's switch, for a body and the slab it lies in.
abbrev pub SwitchOf {ℓ} : Type ℓ → Type ℓ
SwitchOf M = List ℕ → List ℕ → ℕ → Switch M

pub record Part {ℓ} {M : Type ℓ} (switch : SwitchOf M) (size : ℕ) (e : Emit) (bs : List ℕ)
    (m m' : M) : Type ℓ where
  pub sized : size ≡ length bs
  pub writes : Appends e bs
  pub reads :
      (body slab : List ℕ) (slab_off : ℕ)
      → InSlab body slab slab_off
      → Takes bad_tag body (switch body slab slab_off) bs m m'

infixl 5 ◌⊕◌
pub ◌⊕◌ {ℓ} :
    {M : Type ℓ} {switch : SwitchOf M} {x y : ℕ} {e f : Emit} {cs bs : List ℕ} {m m' m'' : M}
    → Part switch x e cs m m'
    → Part switch y f bs m' m''
    → Part switch (x + y) (e ⨾ f) (cs ++ bs) m m''
◌⊕◌ {cs = cs} {bs = bs} p q = record {
  sized = omega (arith, length-append cs bs, p.sized, q.sized);
  writes = Appends-⨾ p.writes q.writes;
  reads = λ body slab slab_off r.
      Takes-append (p.reads body slab slab_off r) (q.reads body slab slab_off r);
}

pub Part-to {ℓ} :
    {M : Type ℓ} {switch : SwitchOf M} {x : ℕ} {e : Emit} {bs : List ℕ} {m m' m'' : M}
    → m' ≡ m''
    → Part switch x e bs m m'
    → Part switch x e bs m m''
Part-to {switch = switch} {x = x} {e = e} {bs = bs} {m = m} q p = subst (Part switch x e bs m) q p

-- What the switch does with the field `num`, at a receiver `m`.
abbrev pub Case {ℓ} :
    {M : Type ℓ} → SwitchOf M → ℕ → ℕ → M → (List ℕ → List ℕ → ℕ → ℕ → Run M) → Type ℓ
Case switch num wire_type m handler =
    (body slab : List ℕ) (slab_off i : ℕ)
    → switch body slab slab_off num wire_type i m ≡ handler body slab slab_off i

-- `put` stores the field's value in the receiver.
module _ {ℓ} {M : Type ℓ} {switch : SwitchOf M} (name : String) (num : ℕ) (small : num < 16) where
  pub uint64_part :
      (put : ℕ → M) (x : ℕ)
      → IsU64 x
      → Case switch num 0
          (put 0)
          (λ body slab slab_off i. varint_case name num body 0 i (put 0) put)
      → Part switch
          (size_varint_field x)
          (emit_varint_field (tag_of num 0) x)
          (varint_wire (tag_of num 0) x)
          (put 0)
          (put x)
  uint64_part put x h e = record {
    sized = length-varint_wire (tag_of num 0) x h;
    writes = Appends-varint_field (tag_of num 0) x h;
    reads = λ body slab slab_off r.
        Takes-varint_field body _ name num small (put 0) (put x) put x h (e body slab slab_off) refl
          (λ z. ap put (sym z));
  }

  -- The switch stores the value of 64 bits in a type of `w` bits.
  pub uint_part :
      (w : ℕ) (put : ℕ → M) (x : ℕ)
      → 2 ^ w ≤ 2 ^ 64
      → x < 2 ^ w
      → Case switch num 0
          (put 0)
          (λ body slab slab_off i. varint_case name num body 0 i (put 0) (λ v. put (v % 2 ^ w)))
      → Part switch
          (size_varint_field x)
          (emit_varint_field (tag_of num 0) x)
          (varint_wire (tag_of num 0) x)
          (put 0)
          (put x)
  uint_part w put x hw h e =
      let fits : IsU64 x = omega arith in
      record {
        sized = length-varint_wire (tag_of num 0) x fits;
        writes = Appends-varint_field (tag_of num 0) x fits;
        reads = λ body slab slab_off r.
            Takes-varint_field body _ name num small (put 0) (put x) _ x fits (e body slab slab_off)
              (ap put (mod-eq_of_lt h)) (λ z. ap put (sym z));
      }

  pub bool_part :
      (put : Bool → M) (b : Bool)
      → Case switch num 0 (put false) (λ body slab slab_off i.
        varint_case name num body 0 i (put false) (λ v. put (not (v == 0))))
      → Part switch
          (size_bool_field b)
          (emit_bool_field (tag_of num 0) b)
          (bool_wire (tag_of num 0) b)
          (put false)
          (put b)
  bool_part put b e = record {
    sized = length-bool_wire (tag_of num 0) b;
    writes = Appends-bool_field (tag_of num 0) b;
    reads = λ body slab slab_off r.
        Takes-bool_field body _ name num small (put false) (put b) _ b (e body slab slab_off)
          (λ z. ap put (sym z)) (λ z. ap put (sym z));
  }

  pub fixed64_part :
      (put : ℕ → M) (x : ℕ)
      → IsU64 x
      → Case switch num 1
          (put 0)
          (λ body slab slab_off i. fixed64_case name num body 1 i (put 0) put)
      → Part switch
          (size_fixed64_field x)
          (emit_fixed64_field (tag_of num 1) x)
          (fixed64_wire (tag_of num 1) x)
          (put 0)
          (put x)
  fixed64_part put x h e = record {
    sized = length-fixed64_wire (tag_of num 1) x;
    writes = Appends-fixed64_field (tag_of num 1) x;
    reads = λ body slab slab_off r.
        Takes-fixed64_field body _ name num small (put 0) (put x) put x h (e body slab slab_off)
          refl (λ z. ap put (sym z));
  }

  pub string_part :
      (put : List ℕ → M) (s : List ℕ)
      → IsShort s
      → Case switch num 2 (put []) (λ body slab slab_off i.
        bytes_case name num body 2 i (put []) (from_slab slab slab_off) put)
      → Part switch
          (size_bytes_field s)
          (emit_bytes_field (tag_of num 2) s)
          (bytes_wire (tag_of num 2) s)
          (put [])
          (put s)
  string_part put s h e = record {
    sized = length-bytes_wire (tag_of num 2) s h;
    writes = Appends-bytes_field (tag_of num 2) s h;
    reads = λ body slab slab_off r.
        Takes-bytes_field body _ name num small _ (put []) (put s) put s
          (InSlab-ReadsBody body slab slab_off r) h (e body slab slab_off) refl
          (λ z. ap put (sym z));
  }

  pub bytes_part :
      (put : List ℕ → M) (s : List ℕ)
      → IsShort s
      → Case switch num 2
          (put [])
          (λ body slab slab_off i. bytes_case name num body 2 i (put []) (from_body body) put)
      → Part switch
          (size_bytes_field s)
          (emit_bytes_field (tag_of num 2) s)
          (bytes_wire (tag_of num 2) s)
          (put [])
          (put s)
  bytes_part put s h e = record {
    sized = length-bytes_wire (tag_of num 2) s h;
    writes = Appends-bytes_field (tag_of num 2) s h;
    reads = λ body slab slab_off r.
        Takes-bytes_field body _ name num small _ (put []) (put s) put s (from_body-ReadsBody body)
          h (e body slab slab_off) refl (λ z. ap put (sym z));
  }

  pub digest_part :
      (put : List ℕ → M) (d : List ℕ)
      → length d ≡ 32
      → Case switch num 2
          (put zero_digest)
          (λ body slab slab_off i. digest_case name num body 2 i (put zero_digest) put)
      → Part switch
          (size_digest_field d)
          (emit_digest_field (tag_of num 2) d)
          (digest_wire (tag_of num 2) d)
          (put zero_digest)
          (put d)
  digest_part put d h e = record {
    sized = length-digest_wire (tag_of num 2) d h;
    writes = Appends-digest_field (tag_of num 2) d h;
    reads = λ body slab slab_off r.
        Takes-digest_field body _ name num small (put zero_digest) (put d) put d h
          (e body slab slab_off) refl (λ z. ap put (sym z));
  }

  pub strings_part :
      (put : List (List ℕ) → M) (ss : List (List ℕ))
      → All IsShort ss
      → ((body slab : List ℕ) (slab_off i : ℕ) (got : List (List ℕ))
          → switch body slab slab_off num 2 i (put got)
            ≡ bytes_case name num body 2 i
                (put got)
                (from_slab slab slab_off)
                (λ s. put (got ++ (s ∷ []))))
      → Part switch
          (size_repeated_field ss)
          (emit_repeated_field (tag_of num 2) ss)
          (repeated_wire (tag_of num 2) ss)
          (put [])
          (put ss)
  strings_part put ss h e = record {
    sized = length-repeated_wire (tag_of num 2) ss h;
    writes = Appends-repeated_field (tag_of num 2) ss h;
    reads = λ body slab slab_off r.
        Takes-repeated_field body _ name num small _ put [] ss
          (InSlab-ReadsBody body slab slab_off r) h (e body slab slab_off);
  }
