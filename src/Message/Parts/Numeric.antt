-- ===== src/Message/Parts/Numeric.antt =====
-- Zigzag and optional fields as parts of a message.
use native.Mathlib.Nat.{mod-eq_of_lt}
use Prim.Native.String.{String}
use protoc_gen_codec.Base.{
  Bool, List, Option, [], ap, arith, false, if◌then◌else◌, length, none, not, refl, some, subst,
  true, ℕ, ◌%◌, ◌+◌, ◌<◌, ◌==◌, ◌^◌, ◌∙◌, ◌∷◌, ◌≡◌,
}
use protoc_gen_codec.Message.Kinds.{bad_tag, fixed64_case, varint_case}
use protoc_gen_codec.Message.Kinds.Numeric.{
  emit_optional_bool_field, emit_optional_fixed64_field, emit_optional_int32_field,
  emit_zigzag32_field, emit_zigzag64_field, size_optional_bool_field, size_optional_fixed64_field,
  size_optional_int32_field, size_zigzag32_field, size_zigzag64_field,
}
use protoc_gen_codec.Message.Kinds.Scalar.{
  Appends-tagged, Takes-bool_field, fixed64_case-little_endian, varint_case-varint,
}
use protoc_gen_codec.Message.Parts.{Case, Part, SwitchOf}
use protoc_gen_codec.Runtime.Time.{sign_extend}
use protoc_gen_codec.Runtime.Varint.{IsU64, size_varint}
use protoc_gen_codec.Runtime.Varint.Groups.{varint, varint_one_byte}
use protoc_gen_codec.Runtime.Varint.Size.{size_varint-length}
use protoc_gen_codec.Runtime.Zigzag.{
  zigzag_decode32, zigzag_decode64, zigzag_encode32, zigzag_encode64,
}
use protoc_gen_codec.Runtime.Zigzag.Laws.{zigzag_inverse32, zigzag_inverse64}
use protoc_gen_codec.Wire.Emit.{
  into, little_endian, nothing, push, put_fixed, put_varint, when, ◌⨾◌,
}
use protoc_gen_codec.Wire.Emit.Laws.{
  Appends-nothing, Appends-push, Appends-⨾, Writes-put_fixed, Writes-put_varint,
  length-little_endian,
}
use protoc_gen_codec.Wire.Loop.{done}
use protoc_gen_codec.Wire.Loop.Laws.{Takes, Takes-nil, Takes-tag, tag_of}
use protoc_gen_codec.Wire.Slab.{InSlab}

abbrev pub coded_wire : ℕ → Bool → ℕ → List ℕ
coded_wire tag present x = if present then tag ∷ varint x else []

abbrev pub optional_wire {ℓ} : {A : Type ℓ} → (A → List ℕ) → ℕ → Option A → List ℕ
optional_wire bytes tag none = []
optional_wire bytes tag (some x) = tag ∷ bytes x

-- The receiver once an optional field is read: as it was, where the field is missing.
abbrev pub stored {ℓ κ} : {A : Type ℓ} {M : Type κ} → (A → M) → M → Option A → M
stored put m none = m
stored put m (some x) = put x

abbrev pub AllOption {ℓ} : {A : Type ℓ} → (A → Type 0) → Option A → Type 0
AllOption P none = Unit {0}
AllOption P (some x) = P x

pub sign_extend_lem : (x : ℕ) → x < 2 ^ 32 → (sign_extend x < 2 ^ 64) × (sign_extend x % 2 ^ 32 ≡ x)
unfolding sign_extend
sign_extend_lem x h = ground arith

pub absent_part {ℓ} : {M : Type ℓ} {switch : SwitchOf M} {m : M} → Part switch 0 nothing [] m m
absent_part = record {
  sized = refl;
  writes = Appends-nothing;
  reads = λ body slab slab_off r. Takes-nil;
}

module _ {ℓ} {M : Type ℓ} {switch : SwitchOf M} (name : String) (num : ℕ) (small : num < 16) where
  -- A tag and the varint `x` behind it, from which the case reads the field.
  pub coded :
      (m m' : M) (set : ℕ → M) (x : ℕ)
      → IsU64 x
      → Case switch num 0 m (λ body slab slab_off i. varint_case name num body 0 i m set)
      → set x ≡ m'
      → Part switch
          (1 + size_varint x)
          (push (tag_of num 0) ⨾ into (put_varint x))
          (tag_of num 0 ∷ varint x)
          m
          m'
  coded m m' set x h e p = record {
    sized = omega (arith, size_varint-length x h);
    writes = Appends-tagged (tag_of num 0) (put_varint x) (varint x) (Writes-put_varint x h);
    reads = λ body slab slab_off r.
        Takes-tag num 0 (varint x) (omega arith) (omega arith) λ i rest at.
          e body slab slab_off i
          ∙ varint_case-varint name num body m set i x rest h at
          ∙ ap (λ u. done u (i + length (varint x))) p;
  }

  coded_if :
      (m m' : M) (present : Bool) (set : ℕ → M) (x : ℕ)
      → IsU64 x
      → Case switch num 0 m (λ body slab slab_off i. varint_case name num body 0 i m set)
      → (present ≡ true → set x ≡ m')
      → (present ≡ false → m ≡ m')
      → Part switch
          (if present then 1 + size_varint x else 0)
          (when present (push (tag_of num 0) ⨾ into (put_varint x)))
          (coded_wire (tag_of num 0) present x)
          m
          m'
  unfolding when
  coded_if m m' true set x h e p q = coded m m' set x h e (p refl)
  coded_if m m' false set x h e p q = subst (Part switch 0 nothing [] m) (q refl) absent_part

  pub zigzag32_part :
      (put : ℕ → M) (x : ℕ)
      → x < 2 ^ 32
      → Case switch num 0 (put 0) (λ body slab slab_off i.
        varint_case name num body 0 i (put 0) (λ v. put (zigzag_decode32 (v % 2 ^ 32))))
      → Part switch
          (size_zigzag32_field x)
          (emit_zigzag32_field (tag_of num 0) x)
          (coded_wire (tag_of num 0) (not (x == 0)) (zigzag_encode32 x))
          (put 0)
          (put x)
  unfolding size_zigzag32_field emit_zigzag32_field
  zigzag32_part put x h e =
      let (fits, back, _) = zigzag_inverse32 x h in
      coded_if (put 0) (put x) (not (x == 0)) _ (zigzag_encode32 x) (omega arith) e
        (λ _. ap put (rw (mod-eq_of_lt fits) back)) (λ z. ap put (ground (arith, z)))

  pub zigzag64_part :
      (put : ℕ → M) (x : ℕ)
      → IsU64 x
      → Case switch num 0 (put 0) (λ body slab slab_off i.
        varint_case name num body 0 i (put 0) (λ v. put (zigzag_decode64 v)))
      → Part switch
          (size_zigzag64_field x)
          (emit_zigzag64_field (tag_of num 0) x)
          (coded_wire (tag_of num 0) (not (x == 0)) (zigzag_encode64 x))
          (put 0)
          (put x)
  unfolding size_zigzag64_field emit_zigzag64_field
  zigzag64_part put x h e =
      let (fits, back, _) = zigzag_inverse64 x h in
      coded_if (put 0) (put x) (not (x == 0)) _ (zigzag_encode64 x) fits e (λ _. ap put back)
        (λ z. ap put (ground (arith, z)))

  pub optional_int32_part :
      (put : ℕ → M) (m : M) (x : Option ℕ)
      → AllOption (λ v. v < 2 ^ 32) x
      → Case switch num 0 m
          (λ body slab slab_off i. varint_case name num body 0 i m (λ v. put (v % 2 ^ 32)))
      → Part switch
          (size_optional_int32_field x)
          (emit_optional_int32_field (tag_of num 0) x)
          (optional_wire (λ v. varint (sign_extend v)) (tag_of num 0) x)
          m
          (stored put m x)
  unfolding size_optional_int32_field emit_optional_int32_field
  optional_int32_part put m none h e = absent_part
  optional_int32_part put m (some x) h e =
      let (fits, back) = sign_extend_lem x h in
      coded m (put x) _ (sign_extend x) fits e (ap put back)

  pub optional_bool_part :
      (put : Bool → M) (m : M) (x : Option Bool)
      → Case switch num 0 m
          (λ body slab slab_off i. varint_case name num body 0 i m (λ v. put (not (v == 0))))
      → Part switch
          (size_optional_bool_field x)
          (emit_optional_bool_field (tag_of num 0) x)
          (optional_wire (λ (b : Bool). (if b then 1 else 0) ∷ []) (tag_of num 0) x)
          m
          (stored put m x)
  unfolding size_optional_bool_field emit_optional_bool_field
  optional_bool_part put m none e = absent_part
  optional_bool_part put m (some b) e = record {
    sized = refl;
    writes = Appends-⨾ (Appends-push (tag_of num 0)) (Appends-push (if b then 1 else 0));
    reads = λ body slab slab_off r. bit b body slab slab_off r;
  }
    where
      bit :
          (b : Bool) (body slab : List ℕ) (slab_off : ℕ)
          → InSlab body slab slab_off
          → Takes bad_tag body
              (switch body slab slab_off)
              (tag_of num 0 ∷ (if b then 1 else 0) ∷ [])
              m
              (put b)
      bit true body slab slab_off r =
          Takes-bool_field body (switch body slab slab_off) name num small m (put true) _ true
            (e body slab slab_off) (λ _. refl) (λ z. cc)
      bit false body slab slab_off r =
          subst
            (λ bs. Takes bad_tag body (switch body slab slab_off) (tag_of num 0 ∷ bs) m (put false))
            (varint_one_byte 0 (omega arith))
            ((coded m (put false) _ 0 (omega arith) e refl).reads body slab slab_off r)

  pub optional_fixed64_part :
      (put : ℕ → M) (m : M) (x : Option ℕ)
      → AllOption IsU64 x
      → Case switch num 1 m (λ body slab slab_off i. fixed64_case name num body 1 i m put)
      → Part switch
          (size_optional_fixed64_field x)
          (emit_optional_fixed64_field (tag_of num 1) x)
          (optional_wire (little_endian 8) (tag_of num 1) x)
          m
          (stored put m x)
  unfolding size_optional_fixed64_field emit_optional_fixed64_field
  optional_fixed64_part put m none h e = absent_part
  optional_fixed64_part put m (some x) h e = record {
    sized = omega (arith, length-little_endian 8 x);
    writes =
        Appends-tagged (tag_of num 1) (put_fixed 8 x) (little_endian 8 x) (Writes-put_fixed 8 x);
    reads = λ body slab slab_off r.
        Takes-tag num 1 (little_endian 8 x) (omega arith) (omega arith) λ i rest at.
          e body slab slab_off i ∙ fixed64_case-little_endian name num body m put i x rest h at;
  }
