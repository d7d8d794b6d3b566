-- ===== src/Message/PreScan/Bounds.antt =====
-- The scan ends on every input, and counts one field for two bytes at most.
use protoc_gen_codec.Base.{
  Bool, Bool-cases, List, arith, bit_and, false, if◌then◌else◌, inl, inr, length, le→ltb_false, ltb,
  ltb_false→le, refl, some, suc, true, zero, ℕ, ◌*◌, ◌+◌, ◌-◌, ◌/◌, ◌==◌, ◌≡◌, ◌≤◌,
}
use protoc_gen_codec.Message.Kinds.{bad_tag}
use protoc_gen_codec.Message.PreScan.{counted_by, or_leave, pre_count, pre_switch}
use protoc_gen_codec.Runtime.Errors.{Res, err, fault, ok}
use protoc_gen_codec.Wire.Loop.{
  Run, and_then, decode_fields, done, failed, field_loop, panicked, reading, spent,
}
use protoc_gen_codec.Wire.Loop.Safe.{ReadsWithin, read_varint_within}
use protoc_gen_codec.Wire.Read.{read_varint}

-- A case of the switch moves on, by two bytes but one for each field that it counts.
abbrev Moves : ℕ → ℕ → ℕ → Run ℕ → Type 0
Moves l i count (done count' j) = (i ≤ j) × (j ≤ l) × (2 * count' + i ≤ 2 * count + j + 1)
Moves l i count (failed e count') = ⊥
Moves l i count panicked = ⊥
Moves l i count spent = ⊥

-- The loop counts at most half of the bytes that it has before it.
abbrev Counted : ℕ → ℕ → ℕ → Run ℕ → Type 0
Counted l i count (done count' j) = 2 * count' + i ≤ 2 * count + l
Counted l i count (failed e count') = 2 * count' + i ≤ 2 * count + l
Counted l i count panicked = ⊥
Counted l i count spent = ⊥

Moves-or_leave :
    (l i count : ℕ) (r : Res (ℕ × ℕ)) (k : ℕ × ℕ → Run ℕ)
    → i ≤ l
    → ReadsWithin (i + 1) l (λ (v : ℕ × ℕ). v.1) r
    → ((v : ℕ × ℕ) → i + 1 ≤ v.1 → v.1 ≤ l → Moves l i count (k v))
    → Moves l i count (or_leave r (done count i) k)
Moves-or_leave l i count (ok v) k h w hk = hk v w.0 w.1
Moves-or_leave l i count (err e) k h w hk = omega (arith, h)
Moves-or_leave l i count fault k h w hk = w

Moves-fixed :
    (l i count w : ℕ)
    → i ≤ l
    → Moves l i count (if ltb l (i + w) then done count i else done count (i + w))
Moves-fixed l i count w h = elim (Bool-cases (ltb l (i + w))) [
  | inl short ↦ rw short (omega (arith, h))
  | inr room ↦ rw room (omega (arith, ltb_false→le l (i + w) room))
]

Moves-if :
    (l i count : ℕ) (x y : Run ℕ) (c : Bool)
    → Moves l i count x
    → Moves l i count y
    → Moves l i count (if c then x else y)
Moves-if l i count x y true hx hy = hx
Moves-if l i count x y false hx hy = hy

module _ (counted : ℕ) (body : List ℕ) where
  pre_switch-Moves :
      (num wire_type i count : ℕ)
      → i ≤ length body
      → Moves (length body) i count (pre_switch counted body num wire_type i count)
  unfolding pre_switch
  pre_switch-Moves num wire_type i count h =
      Moves-if (length body) i count _ _ (wire_type == 0)
        (Moves-or_leave (length body) i count _ _ h (read_varint_within _ body i h)
          λ v lo hi. omega arith)
        (Moves-if (length body) i count _ _ (wire_type == 1) (Moves-fixed (length body) i count 8 h)
          (Moves-if (length body) i count _ _ (wire_type == 2)
            (Moves-or_leave (length body) i count _ _ h (read_varint_within _ body i h) λ v lo hi.
              elim (Bool-cases (ltb (length body - v.1) v.0)) [
                | inl short ↦ rw short (omega arith)
                | inr room ↦ rw room (ground (arith, ltb_false→le (length body - v.1) v.0 room))
              ])
            (Moves-if (length body) i count _ _ (wire_type == 5)
              (Moves-fixed (length body) i count 4 h) (omega (arith, h)))))

  Counted-and_then :
      (i j count : ℕ) (run : Run ℕ) (k : ℕ → ℕ → Run ℕ)
      → i + 1 ≤ j
      → Moves (length body) j count run
      → ((count' j' : ℕ)
          → j ≤ j'
          → j' ≤ length body
          → Counted (length body) j' count' (k count' j'))
      → Counted (length body) i count (and_then run failed k)
  Counted-and_then i j count (done count' j') k lo h hk =
      further (k count' j') (hk count' j' h.0 h.1)
    where
      further :
          (run : Run ℕ) → Counted (length body) j' count' run → Counted (length body) i count run
      further (done c z) g = omega (arith, g, h.2)
      further (failed e c) g = omega (arith, g, h.2)
      further panicked g = g
      further spent g = g
  Counted-and_then i j count (failed e count') k lo h hk = absurd h
  Counted-and_then i j count panicked k lo h hk = h
  Counted-and_then i j count spent k lo h hk = h

  Counted-reading :
      (i count : ℕ) (r : Res (ℕ × ℕ)) (k : ℕ × ℕ → Run ℕ)
      → i ≤ length body
      → ReadsWithin (i + 1) (length body) (λ (v : ℕ × ℕ). v.1) r
      → ((v : ℕ × ℕ) → i + 1 ≤ v.1 → v.1 ≤ length body → Counted (length body) i count (k v))
      → Counted (length body) i count (reading r count k)
  Counted-reading i count (ok v) k h w hk = hk v w.0 w.1
  Counted-reading i count (err e) k h w hk = omega (arith, h)
  Counted-reading i count fault k h w hk = w

  pre_loop-Counted :
      (f i count : ℕ)
      → i ≤ length body
      → length body ≤ f + i
      → Counted (length body) i count (field_loop bad_tag body (pre_switch counted body) f i count)
  unfolding field_loop
  pre_loop-Counted zero i count h enough =
      rw (le→ltb_false i (length body) (omega arith)) (omega (arith, h))
  pre_loop-Counted (suc f) i count h enough = elim (Bool-cases (ltb i (length body))) [
    | inr stop ↦ rw stop (omega (arith, h))
    | inl go ↦ rw go (
        Counted-reading i count (read_varint (bad_tag i) body i) _ h
          (read_varint_within (bad_tag i) body i h)
          λ t lo hi.
            Counted-and_then i t.1 count
              (pre_switch counted body (t.0 / 8) (bit_and t.0 0x7) t.1 count) _ lo
              (pre_switch-Moves _ _ t.1 count hi)
              λ count' j lo' hi'. pre_loop-Counted f j count' hi' (omega arith))
  ]

  -- On any bytes the scan ends, without a panic, and the count of a field, and so the room that a
  -- nil slice is made with, is at most half of the number of bytes.
  pub pre_count_bounded :
      (count : ℕ) × (pre_count counted body ≡ some count) × (2 * count ≤ length body)
  unfolding pre_count decode_fields
  pre_count_bounded = result _ (pre_loop-Counted (length body) 0 0 (omega arith) (omega arith))
    where
      result :
          (run : Run ℕ)
          → Counted (length body) 0 0 run
          → (count : ℕ) × (counted_by run ≡ some count) × (2 * count ≤ length body)
      result (done c j) h = (c, refl, omega (arith, h))
      result (failed e c) h = (c, refl, omega (arith, h))
      result panicked h = absurd h
      result spent h = absurd h
