-- ===== src/Message/Laws.antt =====
-- What the methods of a type promise one another, and what follows for the methods over them.
use native.Mathlib.Nat.{sub-zero}
use protoc_gen_codec.Base.{
  Bool-cases, List, ap, arith, drop, if◌then◌else◌, inl, inr, length, length-append,
  length-replicate, length_zero, le→leb, ltb, ltb_false→le, replicate, some, subst, sym,
  take-append, ℕ, ◌++◌, ◌==◌, ◌∙◌, ◌≡◌,
}
use protoc_gen_codec.Message.{Methods, marshal_codec, marshal_to_codec, size_codec, unmarshal_codec}
use protoc_gen_codec.Runtime.Errors.{buffer_too_short, err, ok, sentinel}
use protoc_gen_codec.Wire.Emit.Laws.{Writes}
use protoc_gen_codec.Wire.Loop.{done}
use protoc_gen_codec.Wire.Loop.Safe.{EndsAt}
use protoc_gen_codec.Wire.Read.{slice}
use protoc_gen_codec.Wire.Slab.{InSlab, in_self}

-- `wire` is the proto3 encoding of a valid value, and `after` the value that is read back from it.
-- A body stands in the slab at the offset that the method is called with.
pub record Lawful {ℓ} {M : Type ℓ} (c : Methods M) (IsValid : M → Type 0) (wire : M → List ℕ)
    (after : M → M) : Type ℓ where
  pub size_wire : (m : M) → IsValid m → c.size m ≡ length (wire m)
  pub writes_wire : (m : M) → IsValid m → Writes (c.marshal_internal m) (wire m)
  pub reads_wire :
      (m r : M) (slab : List ℕ) (slab_off : ℕ)
      → IsValid m
      → InSlab (wire m) slab slab_off
      → c.unmarshal_internal (wire m) slab slab_off r ≡ done (after m) (length (wire m))
  pub slab_body :
      (bs : List ℕ) (r : M)
      → c.unmarshal_internal bs (c.slab bs) 0 r ≡ c.unmarshal_internal bs bs 0 r
  pub ends_at :
      (r : M) (body slab : List ℕ) (slab_off : ℕ)
      → InSlab body slab slab_off
      → EndsAt (length body) (c.unmarshal_internal body slab slab_off r)

-- The same for one value `x`, whose encoding is `bs` and which is read back as `y`.
pub record EncodesAt {ℓ} {M : Type ℓ} (c : Methods M) (x : M) (bs : List ℕ) (y : M) : Type ℓ where
  pub size_at : c.size x ≡ length bs
  pub writes_at : Writes (c.marshal_internal x) bs
  pub reads_at :
      (r : M) (slab : List ℕ) (slab_off : ℕ)
      → InSlab bs slab slab_off
      → c.unmarshal_internal bs slab slab_off r ≡ done y (length bs)

pub slice_front : (bs rest : List ℕ) → slice (bs ++ rest) 0 (length bs) ≡ ok bs
unfolding slice
slice_front bs rest = rw (
  le→leb 0 (length bs) (omega arith),
  le→leb (length bs) (length (bs ++ rest)) (omega (arith, length-append bs rest)),
  sub-zero (length bs),
  take-append bs rest,
)

-- `MarshalCodec` returns the bytes of a value, as many as `SizeCodec` says, where the two methods that it
-- calls agree on them.
pub marshal_codec-Writes {ℓ} :
    {M : Type ℓ} (c : Methods M) (m : M) (bs : List ℕ)
    → c.size m ≡ length bs
    → Writes (c.marshal_internal m) bs
    → (marshal_codec c (some m) ≡ ok bs) × (size_codec c (some m) ≡ length bs)
unfolding marshal_codec size_codec
marshal_codec-Writes c m bs sized writes = (
  elim (Bool-cases (c.size m == 0)) [
    | inl none_case ↦ rw none_case (ap ok (sym (length_zero bs (ground (arith, sized)))))
    | inr some_case ↦
        rw
          (
            some_case,
            sized,
            writes (replicate (length bs) 0)
                (omega (arith, length-replicate {A = ℕ} (length bs) 0)),
          )
          (slice_front bs _)
  ],
  sized,
)

module _ {ℓ} {M : Type ℓ} {c : Methods M} {IsValid : M → Type 0} {wire : M → List ℕ} {after : M → M}
    (laws : Lawful c IsValid wire after) where
  pub encodes_at : (x : M) → IsValid x → EncodesAt c x (wire x) (after x)
  encodes_at x v = record {
    size_at = laws.size_wire x v;
    writes_at = laws.writes_wire x v;
    reads_at = λ r slab slab_off h. laws.reads_wire x r slab slab_off v h;
  }

  -- `MarshalCodec` returns the wire bytes, as many as `SizeCodec` says.
  pub marshal_codec_lem :
      (m : M)
      → IsValid m
      → (marshal_codec c (some m) ≡ ok (wire m)) × (size_codec c (some m) ≡ length (wire m))
  marshal_codec_lem m v =
      marshal_codec-Writes c m (wire m) (laws.size_wire m v) (laws.writes_wire m v)

  pub marshal_to_codec_lem :
      (m : M) (buf : List ℕ)
      → IsValid m
      → marshal_to_codec c (some m) buf ≡ (
          if ltb (length buf) (length (wire m))
          then err (sentinel buffer_too_short)
          else ok (wire m ++ drop (length (wire m)) buf, length (wire m)))
  unfolding marshal_to_codec
  marshal_to_codec_lem m buf v = elim (Bool-cases (ltb (length buf) (length (wire m)))) [
    | inl short ↦ rw (laws.size_wire m v, short)
    | inr room ↦
        rw (laws.size_wire m v, room)
          (laws.writes_wire m v buf (ltb_false→le (length buf) (length (wire m)) room))
  ]

  pub unmarshal_codec-wire :
      (m r : M) → IsValid m → unmarshal_codec c (some r) (wire m) ≡ done (after m) (length (wire m))
  unfolding unmarshal_codec
  unmarshal_codec-wire m r v =
      laws.slab_body (wire m) r ∙ laws.reads_wire m r (wire m) 0 v (in_self (wire m))

  pub unmarshal_codec_ends :
      (r : M) (bs : List ℕ) → EndsAt (length bs) (unmarshal_codec c (some r) bs)
  unfolding unmarshal_codec
  unmarshal_codec_ends r bs =
      subst (EndsAt (length bs)) (sym (laws.slab_body bs r)) (laws.ends_at r bs bs 0 (in_self bs))

  -- All four together, for any buffer and any receiver.
  pub codec_lem :
      (m r : M) (buf : List ℕ)
      → IsValid m
      → (marshal_codec c (some m) ≡ ok (wire m))
        × (size_codec c (some m) ≡ length (wire m))
        × (marshal_to_codec c (some m) buf ≡ (
            if ltb (length buf) (length (wire m))
            then err (sentinel buffer_too_short)
            else ok (wire m ++ drop (length (wire m)) buf, length (wire m))))
        × (unmarshal_codec c (some r) (wire m) ≡ done (after m) (length (wire m)))
  codec_lem m r buf v =
      let (bytes, size) = marshal_codec_lem m v in
      (bytes, size, marshal_to_codec_lem m buf v, unmarshal_codec-wire m r v)
