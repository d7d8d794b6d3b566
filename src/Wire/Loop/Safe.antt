-- ===== src/Wire/Loop/Safe.antt =====
-- The loop ends on every input, without a panic and with fuel to spare, if each case of its switch
-- stays within the body.
use protoc_gen_codec.Base.{
  Bool, Bool-cases, List, Option, arith, bit_and, drop, false, if◌then◌else◌, inl, inr, length,
  length-drop, le→ltb_false, ltb, ltb_false→le, none, refl, some, suc, true, zero, ℕ, ◌+◌, ◌/◌, ◌≡◌,
  ◌≢◌, ◌≤◌,
}
use protoc_gen_codec.Runtime.Errors.{Error, Res, err, fault, ok, ◌>>=◌}
use protoc_gen_codec.Runtime.Skip.{skip_field}
use protoc_gen_codec.Runtime.Skip.Bounds.{skip_field-ne-fault, skip_field_bounds}
use protoc_gen_codec.Runtime.Varint.{IsU64, decode_varint}
use protoc_gen_codec.Runtime.Varint.Decode.{decode_varint_bounds}
use protoc_gen_codec.Wire.Loop.{
  Run, Switch, and_then, decode_fields, done, failed, field_loop, panicked, reading, spent,
}
use protoc_gen_codec.Wire.Read.{or_fail, read_varint, skip_at}
use protoc_gen_codec.Wire.Read.Laws.{slice_from-ok}

-- Neither a panic nor a lack of fuel; where it is done, the index lies between `i` and `l`.
abbrev pub Ends {ℓ} : {M : Type ℓ} → ℕ → ℕ → Run M → Type 0
Ends i l (done m i') = (i ≤ i') × (i' ≤ l)
Ends i l (failed e m) = Unit {0}
Ends i l panicked = ⊥
Ends i l spent = ⊥

pub Ends-weaken {ℓ} : {M : Type ℓ} (i j l : ℕ) (r : Run M) → i ≤ j → Ends j l r → Ends i l r
Ends-weaken i j l (done m k) h e = omega (arith, e)
Ends-weaken i j l (failed x m) h e = tt
Ends-weaken i j l panicked h e = e
Ends-weaken i j l spent h e = e

abbrev pub ReadsWithin {ℓ} : {A : Type ℓ} → ℕ → ℕ → (A → ℕ) → Res A → Type 0
ReadsWithin i l index (ok a) = (i ≤ index a) × (index a ≤ l)
ReadsWithin i l index (err e) = Unit {0}
ReadsWithin i l index fault = ⊥

pub Ends-reading {ℓ κ} :
    {A : Type ℓ} {M : Type κ} (i j l : ℕ) (index : A → ℕ) (r : Res A) (m : M) (k : A → Run M)
    → ReadsWithin j l index r
    → ((a : A) → j ≤ index a → index a ≤ l → Ends i l (k a))
    → Ends i l (reading r m k)
Ends-reading i j l index (ok a) m k h hk = hk a h.0 h.1
Ends-reading i j l index (err e) m k h hk = tt
Ends-reading i j l index fault m k h hk = h

pub Ends-and_then {ℓ} :
    {M : Type ℓ} (i j l : ℕ) (r : Run M) (k : M → ℕ → Run M)
    → Ends j l r
    → ((m : M) (i' : ℕ) → j ≤ i' → i' ≤ l → Ends i l (k m i'))
    → Ends i l (and_then r failed k)
Ends-and_then i j l (done m i') k h hk = hk m i' h.0 h.1
Ends-and_then i j l (failed e m) k h hk = tt
Ends-and_then i j l panicked k h hk = h
Ends-and_then i j l spent k h hk = h

-- A varint read moves on by a byte at least, a skipped field too, and neither passes the end.
pub read_varint_within :
    (e : Error) (bs : List ℕ) (i : ℕ)
    → i ≤ length bs
    → ReadsWithin (i + 1) (length bs) (λ (r : ℕ × ℕ). r.1) (read_varint e bs i)
unfolding read_varint or_fail
read_varint_within e bs i h =
    rw (slice_from-ok bs i h) (tail (decode_varint (drop i bs)) (decode_varint_bounds (drop i bs)))
  where
    tail :
        (o : Option (ℕ × ℕ))
        → ((r : ℕ × ℕ)
            → o ≡ some r
            → IsU64 r.0 × (1 ≤ r.1) × (r.1 ≤ 10) × (r.1 ≤ length (drop i bs)))
        → ReadsWithin (i + 1) (length bs) (λ (r : ℕ × ℕ). r.1) (or_fail e i o)
    tail none k = tt
    tail (some r) k = omega (arith, k r refl, length-drop i bs)

pub skip_at_within :
    (bs : List ℕ) (wire_type i : ℕ)
    → i ≤ length bs
    → ReadsWithin i (length bs) (λ (j : ℕ). j) (skip_at bs wire_type i)
unfolding skip_at
skip_at_within bs wire_type i h = rw (slice_from-ok bs i h) (
    tail (skip_field (drop i bs) wire_type) (skip_field_bounds (drop i bs) wire_type)
      (skip_field-ne-fault (drop i bs) wire_type))
  where
    tail :
        (r : Res ℕ)
        → ((n : ℕ) → r ≡ ok n → (1 ≤ n) × (n ≤ length (drop i bs)))
        → r ≢ fault
        → ReadsWithin i (length bs) (λ (j : ℕ). j) (r >>= λ n. ok (i + n))
    tail (ok n) k nf = omega (arith, k n refl, length-drop i bs)
    tail (err e) k nf = tt
    tail fault k nf = nf refl

pub Ends-if {ℓ} :
    {M : Type ℓ} (i l : ℕ) (c : Bool) (x y : Run M)
    → Ends i l x
    → Ends i l y
    → Ends i l (if c then x else y)
Ends-if i l true x y hx hy = hx
Ends-if i l false x y hx hy = hy

module _ {ℓ} {M : Type ℓ} (bs : List ℕ) (i : ℕ) (m : M) (h : i ≤ length bs) where
  -- A case that reads a varint, and the default case.
  pub Ends-varint :
      (e : Error) (k : ℕ × ℕ → M)
      → Ends i (length bs) (reading (read_varint e bs i) m λ r. done (k r) r.1)
  Ends-varint e k =
      Ends-reading i (i + 1) (length bs) (λ (r : ℕ × ℕ). r.1) (read_varint e bs i) m _
        (read_varint_within e bs i h) (λ r lo hi. omega arith)

  pub Ends-skip :
      (wire_type : ℕ) → Ends i (length bs) (reading (skip_at bs wire_type i) m λ j. done m j)
  Ends-skip wire_type =
      Ends-reading i i (length bs) (λ (j : ℕ). j) (skip_at bs wire_type i) m _
        (skip_at_within bs wire_type i h) (λ j lo hi. omega arith)

-- Each case of the switch, from any index within the body on, ends within the body.
abbrev pub EndsAll {ℓ} : {M : Type ℓ} → ℕ → Switch M → Type ℓ
EndsAll {M} l switch = (num wire_type i : ℕ) (m : M) → i ≤ l → Ends i l (switch num wire_type i m)

-- The loop comes to the very end of the body, or fails.
abbrev pub EndsAt {ℓ} : {M : Type ℓ} → ℕ → Run M → Type 0
EndsAt l (done m i) = i ≡ l
EndsAt l (failed e m) = Unit {0}
EndsAt l panicked = ⊥
EndsAt l spent = ⊥

module _ {ℓ} {M : Type ℓ} (bad_tag : ℕ → Error) (bs : List ℕ) (switch : Switch M)
    (all : EndsAll (length bs) switch) where
  EndsAt-reading :
      (j : ℕ) (r : Res (ℕ × ℕ)) (m : M) (k : ℕ × ℕ → Run M)
      → ReadsWithin j (length bs) (λ (t : ℕ × ℕ). t.1) r
      → ((t : ℕ × ℕ) → j ≤ t.1 → t.1 ≤ length bs → EndsAt (length bs) (k t))
      → EndsAt (length bs) (reading r m k)
  EndsAt-reading j (ok t) m k h hk = hk t h.0 h.1
  EndsAt-reading j (err e) m k h hk = tt
  EndsAt-reading j fault m k h hk = h

  EndsAt-and_then :
      (j : ℕ) (r : Run M) (k : M → ℕ → Run M)
      → Ends j (length bs) r
      → ((m : M) (i : ℕ) → j ≤ i → i ≤ length bs → EndsAt (length bs) (k m i))
      → EndsAt (length bs) (and_then r failed k)
  EndsAt-and_then j (done m i) k h hk = hk m i h.0 h.1
  EndsAt-and_then j (failed e m) k h hk = tt
  EndsAt-and_then j panicked k h hk = h
  EndsAt-and_then j spent k h hk = h

  field_loop_ends :
      (f i : ℕ) (m : M)
      → i ≤ length bs
      → length bs ≤ f + i
      → EndsAt (length bs) (field_loop bad_tag bs switch f i m)
  unfolding field_loop
  field_loop_ends zero i m h enough = rw (le→ltb_false i (length bs) (omega arith)) (omega arith)
  field_loop_ends (suc f) i m h enough = elim (Bool-cases (ltb i (length bs))) [
    | inr stop ↦ rw stop (omega (arith, ltb_false→le i (length bs) stop))
    | inl go ↦ rw go (
        EndsAt-reading (i + 1) (read_varint (bad_tag i) bs i) m _
          (read_varint_within (bad_tag i) bs i h)
          λ t lo hi.
            EndsAt-and_then t.1 (switch (t.0 / 8) (bit_and t.0 0x7) t.1 m) _ (all _ _ t.1 m hi)
              λ m' i' lo' hi'. field_loop_ends f i' m' hi' (omega arith))
  ]

  pub decode_fields_ends : (m : M) → EndsAt (length bs) (decode_fields bad_tag bs switch m)
  unfolding decode_fields
  decode_fields_ends m = field_loop_ends (length bs) 0 m (omega arith) (omega arith)
