-- ===== src/Core/Options.antt =====
-- internal/core/options.go: the annotations of the options, read from the bytes of the fields that the
-- descriptors do not know.
pub mod Ends
pub mod Found
use protoc_gen_codec.Base.{
  Bool, List, Option, [], drop, false, if◌then◌else◌, leb, length, ltb, none, not, some, suc, true,
  zero, ℕ, ◌%◌, ◌++◌, ◌==◌, ◌^◌, ◌||◌, ◌∷◌,
}

-- What options.go uses of the package protowire. A result is `none` where the count is negative; the
-- count stands last. A tag gives the field number and the wire type.
pub record Protowire : Type 0 where
  pub consume_tag : List ℕ → Option (ℕ × ℕ × ℕ)
  pub consume_varint : List ℕ → Option (ℕ × ℕ)
  pub consume_bytes : List ℕ → Option (List ℕ × ℕ)

-- How a loop ends: with a result, with a panic, or, which is no Go value, without fuel.
pub data Outcome {ℓ} (A : Type ℓ) : Type ℓ where
  answered : A → Outcome A
  crashed starved : Outcome A

-- `raw = raw[n:]`, which panics out of range.
abbrev pub advance {ℓ} : {A : Type ℓ} → List ℕ → ℕ → (List ℕ → Outcome A) → Outcome A
advance raw n k = if leb n (length raw) then k (drop n raw) else crashed

-- `x, n := consume(raw); if n < 0 { return r }; raw = raw[n:]`
abbrev pub consuming {ℓ} :
    {X : Type 0} {A : Type ℓ} → Option (X × ℕ) → List ℕ → A → (X → List ℕ → Outcome A) → Outcome A
consuming none raw r k = answered r
consuming (some (x, n)) raw r k = advance raw n (k x)

-- Strings are the lists of their bytes.
pub record OneofConfig : Type 0 where
  pub name : List ℕ
  pub discriminator : List ℕ
  pub cast : List ℕ

-- `switch fnum { … }` of `parseOneofConfig`.
unfoldable pub config_field : ℕ → List ℕ → OneofConfig → OneofConfig
config_field fnum val cfg =
    if fnum == 1
    then record cfg { name = val }
    else if fnum == 2
    then record cfg { discriminator = val }
    else if fnum == 3
    then record cfg { cast = val }
    else cfg

abbrev pub opt_oneof : ℕ
opt_oneof = 50007

-- `cfg, ok := parseOneofConfig(body); if !ok { return out }`
abbrev pub parsed {ℓ} :
    {A : Type ℓ} → Outcome (Option OneofConfig) → A → (OneofConfig → Outcome A) → Outcome A
parsed (answered none) out k = answered out
parsed (answered (some cfg)) out k = k cfg
parsed crashed out k = crashed
parsed starved out k = starved

module _ (w : Protowire) where
  abbrev pub tag_of_raw : List ℕ → Option ((ℕ × ℕ) × ℕ)
  tag_of_raw raw = elim (w.consume_tag raw) [
    | none ↦ none
    | some (fnum, wtype, n) ↦ some ((fnum, wtype), n)
  ]

  -- The wire types are VarintType, Fixed32Type, Fixed64Type and BytesType.
  unfoldable pub consume_field_value : List ℕ → ℕ → Option (Unit {0} × ℕ)
  consume_field_value raw wtype =
      if wtype == 0
      then elim (w.consume_varint raw) [ none ↦ none | some (x, n) ↦ some (tt, n) ]
      else if wtype == 5
      then (if ltb (length raw) 4 then none else some (tt, 4))
      else if wtype == 1
      then (if ltb (length raw) 8 then none else some (tt, 8))
      else if wtype == 2
      then elim (w.consume_bytes raw) [ none ↦ none | some (x, n) ↦ some (tt, n) ]
      else none

  -- The loop of the three `extract…FromRaw`: the first entry with the number `num` and the wire type
  -- `wanted`, or `missing`.
  unfoldable pub extract_loop :
      {X B : Type 0} → ℕ → (List ℕ → Option (X × ℕ)) → B → (X → B) → ℕ → ℕ → List ℕ → Outcome B
  extract_loop wanted consume missing found num zero raw =
      if length raw == 0 then answered missing else starved
  extract_loop wanted consume missing found num (suc fuel) raw =
      let entry = consuming (tag_of_raw raw) raw missing λ t rest.
        if t.1 == wanted
        then consuming (consume rest) rest missing (λ val rest'.
          if t.0 == num
          then answered (found val)
          else extract_loop wanted consume missing found num fuel rest')
        else consuming (consume_field_value rest t.1) rest missing
            (λ skipped rest'. extract_loop wanted consume missing found num fuel rest') in
      if length raw == 0 then answered missing else entry

  unfoldable pub extract_string_from_raw : List ℕ → ℕ → Outcome (List ℕ)
  extract_string_from_raw raw num = extract_loop 2 w.consume_bytes [] (λ s. s) num (length raw) raw

  -- The result is the value, and whether there is one.
  unfoldable pub extract_uint32_from_raw : List ℕ → ℕ → Outcome (ℕ × Bool)
  extract_uint32_from_raw raw num =
      extract_loop 0 w.consume_varint (0, false) (λ v. (v % 2 ^ 32, true)) num (length raw) raw

  unfoldable pub extract_bool_from_raw : List ℕ → ℕ → Outcome (Bool × Bool)
  extract_bool_from_raw raw num =
      extract_loop 0 w.consume_varint (false, false) (λ v. (not (v == 0), true)) num (length raw)
        raw

  -- The loop of `parseOneofConfig`; `none` is the result on malformed input.
  unfoldable pub parse_loop : ℕ → List ℕ → OneofConfig → Outcome (Option OneofConfig)
  parse_loop zero body cfg = if length body == 0 then answered (some cfg) else starved
  parse_loop (suc fuel) body cfg =
      let entry = consuming (tag_of_raw body) body none λ t rest.
        if not (t.1 == 2)
        then consuming (consume_field_value rest t.1) rest none
            (λ skipped rest'. parse_loop fuel rest' cfg)
        else consuming (w.consume_bytes rest) rest none
            (λ val rest'. parse_loop fuel rest' (config_field t.0 val cfg)) in
      if length body == 0 then answered (some cfg) else entry

  unfoldable pub parse_oneof_config : List ℕ → Outcome (Option OneofConfig)
  parse_oneof_config body =
      parse_loop (length body) body (record { name = []; discriminator = []; cast = [] })

  -- The loop of `oneofsFromRaw`, with what it has found so far.
  unfoldable pub oneofs_loop : ℕ → List ℕ → List OneofConfig → Outcome (List OneofConfig)
  oneofs_loop zero raw out = if length raw == 0 then answered out else starved
  oneofs_loop (suc fuel) raw out =
      let entry = consuming (tag_of_raw raw) raw out λ t rest.
        if not (t.0 == opt_oneof) || not (t.1 == 2)
        then consuming (consume_field_value rest t.1) rest out
            (λ skipped rest'. oneofs_loop fuel rest' out)
        else consuming (w.consume_bytes rest) rest out (λ body rest'.
          parsed (parse_oneof_config body) out
            (λ cfg. oneofs_loop fuel rest' (out ++ (cfg ∷ [])))) in
      if length raw == 0 then answered out else entry

  unfoldable pub oneofs_from_raw : List ℕ → Outcome (List OneofConfig)
  oneofs_from_raw raw = oneofs_loop (length raw) raw []
