-- ===== src/Message/Parts/Maps.antt =====
-- Map fields as parts of a message.
use Prim.Native.String.{String}
use mathlib.Core.List.{Permᴰ}
use mathlib.Core.List.Permᴰ
use protoc_gen_codec.Base.{
  All, Bool, List, [], ap, append-nil, append_assoc, arith, subst, sym, ℕ, ◌++◌, ◌<◌, ◌∙◌, ◌∷◌, ◌≡◌,
}
use protoc_gen_codec.Message.Kinds.Bytes.{element_wire}
use protoc_gen_codec.Message.Kinds.Maps.{
  EntryKind, emit_entry, emit_map_field, map_case, size_entry, size_map_field,
}
use protoc_gen_codec.Message.Kinds.Maps.Laws.{
  Appends-entry, LawfulEntry, length-entry, map_case-entry,
}
use protoc_gen_codec.Message.Maps.{map_set}
use protoc_gen_codec.Message.Maps.Laws.{
  All-Permᴰ, Distinct, Distinct-Permᴰ, absent_before, map_set-absent, sum_of-Permᴰ,
}
use protoc_gen_codec.Message.Parts.{Case, Part, Part-to, SwitchOf, ◌⊕◌}
use protoc_gen_codec.Message.Parts.Nested.{IsSent}
use protoc_gen_codec.Message.Parts.Numeric.{absent_part}
use protoc_gen_codec.Wire.Emit.{each}
use protoc_gen_codec.Wire.Loop.Laws.{Takes-tag, tag_of}

abbrev pub entries_wire : {A : Type 0} → (A → List ℕ) → ℕ → List A → List ℕ
entries_wire kv_wire tag [] = []
entries_wire kv_wire tag (p ∷ ps) = element_wire tag (kv_wire p) ++ entries_wire kv_wire tag ps

module _ {ℓ} {K V : Type 0} {c : EntryKind K V} {IsValid : K × V → Type 0}
    {kv_wire : K × V → List ℕ} (laws : LawfulEntry c IsValid kv_wire) {M : Type ℓ}
    {switch : SwitchOf M} (name : String) (num : ℕ) (small : num < 16) where
  pub entry_part :
      (m : M) (put : K × V → M) (p : K × V)
      → IsSent IsValid kv_wire p
      → Case switch num 2 m
          (λ body slab slab_off i. map_case c name num body slab slab_off 2 i m put)
      → Part switch
          (size_entry c p)
          (emit_entry c (tag_of num 2) p)
          (element_wire (tag_of num 2) (kv_wire p))
          m
          (put p)
  entry_part m put p v e = record {
    sized = length-entry laws (tag_of num 2) p v.0 v.1;
    writes = Appends-entry laws (tag_of num 2) p v.0 v.1;
    reads = λ body slab slab_off r. Takes-tag num 2 _ (omega arith) (omega arith) λ i rest at.
        e body slab slab_off i
        ∙ map_case-entry laws name num body slab slab_off r m put i p rest v.0 v.1 at;
  }

  -- Entries with different keys, one after the other into the map.
  pub entries_part :
      (eq : K → K → Bool) (put : List (K × V) → M) (got ps : List (K × V))
      → All (IsSent IsValid kv_wire) ps
      → Distinct eq (got ++ ps)
      → ((got : List (K × V)) (body slab : List ℕ) (slab_off i : ℕ)
          → switch body slab slab_off num 2 i (put got)
            ≡ map_case c name num body slab slab_off 2 i
                (put got)
                (λ p. put (map_set eq got p.0 p.1)))
      → Part switch
          (size_map_field c ps)
          (emit_map_field c (tag_of num 2) ps)
          (entries_wire kv_wire (tag_of num 2) ps)
          (put got)
          (put (got ++ ps))
  unfolding size_map_field emit_map_field each
  entries_part eq put got [] v d e = Part-to (ap put (sym (append-nil got))) absent_part
  entries_part eq put got (p ∷ ps) v d e = Part-to (ap put (append_assoc got (p ∷ []) ps)) (
      Part-to (ap put (map_set-absent eq got p (absent_before eq got p ps d)))
        (entry_part (put got) (λ q. put (map_set eq got q.0 q.1)) p v.0 (e got))
      ⊕ entries_part eq put (got ++ (p ∷ [])) ps v.1
          (subst (Distinct eq) (sym (append_assoc got (p ∷ []) ps)) d) e)

  -- A whole map, whose entries `ps` are sent in another order than the one of its `range`.
  pub map_part :
      (eq : K → K → Bool) (eq-sym : (j k : K) → eq j k ≡ eq k j) (put : List (K × V) → M)
      (m ps : List (K × V))
      → All (IsSent IsValid kv_wire) m
      → Distinct eq m
      → Permᴰ ps m
      → ((got : List (K × V)) (body slab : List ℕ) (slab_off i : ℕ)
          → switch body slab slab_off num 2 i (put got)
            ≡ map_case c name num body slab slab_off 2 i
                (put got)
                (λ p. put (map_set eq got p.0 p.1)))
      → Part switch
          (size_map_field c m)
          (emit_map_field c (tag_of num 2) ps)
          (entries_wire kv_wire (tag_of num 2) ps)
          (put [])
          (put ps)
  unfolding size_map_field
  map_part eq eq-sym put m ps v d perm e =
      subst
        (λ n.
          Part switch n (emit_map_field c (tag_of num 2) ps)
            (entries_wire kv_wire (tag_of num 2) ps) (put []) (put ps))
        (sum_of-Permᴰ (size_entry c) perm)
        (entries_part eq put [] ps (All-Permᴰ _ (Permᴰ.symm perm) v)
          (Distinct-Permᴰ eq eq-sym (Permᴰ.symm perm) d) e)
