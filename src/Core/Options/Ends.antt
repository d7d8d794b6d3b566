-- ===== src/Core/Options/Ends.antt =====
-- The loops over raw options end on any bytes.
use protoc_gen_codec.Base.{
  Bool, Bool-cases, List, Option, [], arith, drop, false, if◌then◌else◌, inl, inr, length,
  length-drop, le→leb, ltb, ltb_false→le, none, not, refl, some, suc, true, zero, ℕ, ◌%◌, ◌++◌, ◌+◌,
  ◌==◌, ◌^◌, ◌||◌, ◌∷◌, ◌≡◌, ◌≤◌,
}
use protoc_gen_codec.Core.Options.{
  OneofConfig, Outcome, Protowire, answered, config_field, consume_field_value, consuming, crashed,
  extract_bool_from_raw, extract_loop, extract_string_from_raw, extract_uint32_from_raw,
  oneofs_from_raw, oneofs_loop, opt_oneof, parse_loop, parse_oneof_config, parsed, starved,
  tag_of_raw,
}

-- What the documentation of protowire says of the counts.
pub record IsProtowire (w : Protowire) : Type 0 where
  pub tag_within :
      (raw : List ℕ) (r : ℕ × ℕ × ℕ) → w.consume_tag raw ≡ some r → (1 ≤ r.2) × (r.2 ≤ length raw)
  pub varint_within :
      (raw : List ℕ) (r : ℕ × ℕ) → w.consume_varint raw ≡ some r → (1 ≤ r.1) × (r.1 ≤ length raw)
  pub bytes_within :
      (raw : List ℕ) (r : List ℕ × ℕ)
      → w.consume_bytes raw ≡ some r
      → (1 ≤ r.1) × (r.1 ≤ length raw)

abbrev pub Answered {ℓ} : {A : Type ℓ} → Outcome A → Type 0
Answered (answered a) = Unit {0}
Answered crashed = ⊥
Answered starved = ⊥

abbrev Within : {X : Type 0} → List ℕ → Option (X × ℕ) → Type 0
Within raw none = Unit {0}
Within raw (some (x, n)) = (1 ≤ n) × (n ≤ length raw)

Answered-consuming :
    {X A : Type 0} (o : Option (X × ℕ)) (raw : List ℕ) (r : A) (k : X → List ℕ → Outcome A)
    → Within raw o
    → ((x : X) (rest : List ℕ) → length rest + 1 ≤ length raw → Answered (k x rest))
    → Answered (consuming o raw r k)
Answered-consuming none raw r k h hk = tt
Answered-consuming (some (x, n)) raw r k h hk =
    rw (le→leb n (length raw) h.1) (hk x (drop n raw) (omega (arith, length-drop n raw, h)))

Answered-if :
    {A : Type 0} (c : Bool) (x y : Outcome A)
    → Answered x
    → Answered y
    → Answered (if c then x else y)
Answered-if true x y hx hy = hx
Answered-if false x y hx hy = hy

Within-if :
    {X : Type 0} (raw : List ℕ) (c : Bool) (x y : Option (X × ℕ))
    → Within raw x
    → Within raw y
    → Within raw (if c then x else y)
Within-if raw true x y hx hy = hx
Within-if raw false x y hx hy = hy

counted-Within :
    {X : Type 0} (raw : List ℕ) (o : Option (X × ℕ))
    → ((r : X × ℕ) → o ≡ some r → (1 ≤ r.1) × (r.1 ≤ length raw))
    → Within raw o × Within {X = Unit {0}} raw (elim o [ none ↦ none | some (x, n) ↦ some (tt, n) ])
counted-Within raw none h = (tt, tt)
counted-Within raw (some (x, n)) h = (h (x, n) refl, h (x, n) refl)

fixed-Within :
    (raw : List ℕ) (n : ℕ)
    → 1 ≤ n
    → Within {X = Unit {0}} raw (if ltb (length raw) n then none else some (tt, n))
fixed-Within raw n h = elim (Bool-cases (ltb (length raw) n)) [
  | inl short ↦ rw short tt
  | inr room ↦ rw room (omega (arith, h), ltb_false→le (length raw) n room)
]

module _ (w : Protowire) (laws : IsProtowire w) where
  tag_of_raw-Within : (raw : List ℕ) → Within raw (tag_of_raw w raw)
  tag_of_raw-Within raw = tag (w.consume_tag raw) (laws.tag_within raw)
    where
      tag :
          (o : Option (ℕ × ℕ × ℕ))
          → ((r : ℕ × ℕ × ℕ) → o ≡ some r → (1 ≤ r.2) × (r.2 ≤ length raw))
          → Within {X = ℕ × ℕ} raw
              (elim o [ none ↦ none | some (fnum, wtype, n) ↦ some ((fnum, wtype), n) ])
      tag none h = tt
      tag (some (fnum, wtype, n)) h = h (fnum, wtype, n) refl

  consume_field_value-Within :
      (raw : List ℕ) (wtype : ℕ) → Within raw (consume_field_value w raw wtype)
  unfolding consume_field_value
  consume_field_value-Within raw wtype =
      Within-if raw (wtype == 0) _ _
        (counted-Within raw (w.consume_varint raw) (laws.varint_within raw)).1
        (Within-if raw (wtype == 5) _ _ (fixed-Within raw 4 (omega arith)) (
          Within-if raw (wtype == 1) _ _ (fixed-Within raw 8 (omega arith)) (
            Within-if raw (wtype == 2) _ _
              (counted-Within raw (w.consume_bytes raw) (laws.bytes_within raw)).1 tt)))

  module _ {X B : Type 0} (wanted : ℕ) (consume : List ℕ → Option (X × ℕ)) (missing : B)
      (found : X → B) (num : ℕ) (within : (raw : List ℕ) → Within raw (consume raw)) where
    extract_loop-Answered :
        (fuel : ℕ) (raw : List ℕ)
        → length raw ≤ fuel
        → Answered (extract_loop w wanted consume missing found num fuel raw)
    unfolding extract_loop
    extract_loop-Answered zero raw h = ground (arith, h)
    extract_loop-Answered (suc fuel) raw h = Answered-if (length raw == 0) _ _ tt (
        Answered-consuming (tag_of_raw w raw) raw missing _ (tag_of_raw-Within raw)
          λ t rest shorter.
            Answered-if (t.1 == wanted) _ _
              (Answered-consuming (consume rest) rest missing _ (within rest) λ val rest' less.
                Answered-if (t.0 == num) _ _ tt (extract_loop-Answered fuel rest' (omega arith)))
              (Answered-consuming (consume_field_value w rest t.1) rest missing _
                (consume_field_value-Within rest t.1)
                λ skipped rest' less. extract_loop-Answered fuel rest' (omega arith)))

  strings : (raw : List ℕ) → Within raw (w.consume_bytes raw)
  strings raw = (counted-Within raw (w.consume_bytes raw) (laws.bytes_within raw)).0

  numbers : (raw : List ℕ) → Within raw (w.consume_varint raw)
  numbers raw = (counted-Within raw (w.consume_varint raw) (laws.varint_within raw)).0

  parse_loop-Answered :
      (fuel : ℕ) (body : List ℕ) (cfg : OneofConfig)
      → length body ≤ fuel
      → Answered (parse_loop w fuel body cfg)
  unfolding parse_loop
  parse_loop-Answered zero body cfg h = ground (arith, h)
  parse_loop-Answered (suc fuel) body cfg h = Answered-if (length body == 0) _ _ tt (
      Answered-consuming (tag_of_raw w body) body none _ (tag_of_raw-Within body) λ t rest shorter.
        Answered-if (not (t.1 == 2)) _ _
          (Answered-consuming (consume_field_value w rest t.1) rest none _
            (consume_field_value-Within rest t.1)
            λ skipped rest' less. parse_loop-Answered fuel rest' cfg (omega arith))
          (Answered-consuming (w.consume_bytes rest) rest none _ (strings rest) λ val rest' less.
            parse_loop-Answered fuel rest' (config_field t.0 val cfg) (omega arith)))

  Answered-parsed :
      {A : Type 0} (o : Outcome (Option OneofConfig)) (out : A) (k : OneofConfig → Outcome A)
      → Answered o
      → ((cfg : OneofConfig) → Answered (k cfg))
      → Answered (parsed o out k)
  Answered-parsed (answered none) out k h hk = tt
  Answered-parsed (answered (some cfg)) out k h hk = hk cfg
  Answered-parsed crashed out k h hk = h
  Answered-parsed starved out k h hk = h

  oneofs_loop-Answered :
      (fuel : ℕ) (raw : List ℕ) (out : List OneofConfig)
      → length raw ≤ fuel
      → Answered (oneofs_loop w fuel raw out)
  unfolding oneofs_loop parse_oneof_config
  oneofs_loop-Answered zero raw out h = ground (arith, h)
  oneofs_loop-Answered (suc fuel) raw out h = Answered-if (length raw == 0) _ _ tt (
      Answered-consuming (tag_of_raw w raw) raw out _ (tag_of_raw-Within raw) λ t rest shorter.
        Answered-if (not (t.0 == opt_oneof) || not (t.1 == 2)) _ _
          (Answered-consuming (consume_field_value w rest t.1) rest out _
            (consume_field_value-Within rest t.1)
            λ skipped rest' less. oneofs_loop-Answered fuel rest' out (omega arith))
          (Answered-consuming (w.consume_bytes rest) rest out _ (strings rest) λ body rest' less.
            Answered-parsed _ out _ (parse_loop-Answered (length body) body _ (omega arith))
              λ cfg. oneofs_loop-Answered fuel rest' (out ++ (cfg ∷ [])) (omega arith)))

  -- On any bytes of raw options and for any number, where the counts of protowire are positive and no
  -- greater than the bytes there are, the scans for a string, a uint32, a bool and the oneofs end with a
  -- result.
  pub options-Answered :
      (raw : List ℕ) (num : ℕ)
      → Answered (extract_string_from_raw w raw num)
        × Answered (extract_uint32_from_raw w raw num)
        × Answered (extract_bool_from_raw w raw num)
        × Answered (oneofs_from_raw w raw)
  unfolding extract_string_from_raw extract_uint32_from_raw extract_bool_from_raw oneofs_from_raw
  options-Answered raw num = (
    extract_loop-Answered 2 w.consume_bytes [] (λ s. s) num strings (length raw) raw (omega arith),
    extract_loop-Answered 0 w.consume_varint (0, false) (λ v. (v % 2 ^ 32, true)) num numbers
        (length raw) raw (omega arith),
    extract_loop-Answered 0 w.consume_varint (false, false) (λ v. (not (v == 0), true)) num numbers
        (length raw) raw (omega arith),
    oneofs_loop-Answered (length raw) raw [] (omega arith),
  )
