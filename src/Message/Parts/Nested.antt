-- ===== src/Message/Parts/Nested.antt =====
-- Nested messages as parts of a message.
use Prim.Native.String.{String}
use protoc_gen_codec.Base.{
  All, Bool, List, Option, [], ap, append-nil, append_assoc, arith, false, if◌then◌else◌, length,
  ltb, map, none, refl, some, true, ℕ, ◌++◌, ◌<◌, ◌∙◌, ◌∷◌, ◌≡◌, ◌≤◌,
}
use protoc_gen_codec.Message.{Methods}
use protoc_gen_codec.Message.Kinds.Bytes.{IsShort, element_wire}
use protoc_gen_codec.Message.Kinds.Nested.{
  emit_message, emit_pointer_field, emit_pointers_field, emit_value_field, emit_values_field,
  message_case, size_message, size_pointer_field, size_pointers_field, size_value_field,
  size_values_field,
}
use protoc_gen_codec.Message.Kinds.Nested.Laws.{
  Appends-message, Ends-message_case, length-message, message_case-message,
}
use protoc_gen_codec.Message.Laws.{EncodesAt, Lawful, encodes_at}
use protoc_gen_codec.Message.Parts.{Case, Part, Part-to, SwitchOf, ◌⊕◌}
use protoc_gen_codec.Message.Parts.Numeric.{AllOption, absent_part, stored}
use protoc_gen_codec.Message.Parts.Stays.{Stays}
use protoc_gen_codec.Wire.Emit.{each, when}
use protoc_gen_codec.Wire.Emit.Laws.{Appends-nothing, Appends-⨾}
use protoc_gen_codec.Wire.Loop.Laws.{Takes-tag, tag_of}
use protoc_gen_codec.Wire.Slab.{InSlab}

module _ {ℓ} {N : Type ℓ} (wire : N → List ℕ) where
  -- A message without bytes is left out where it is no element of a list.
  abbrev pub value_wire : ℕ → N → List ℕ
  value_wire tag x = if ltb 0 (length (wire x)) then element_wire tag (wire x) else []

  abbrev pub pointer_wire : ℕ → Option N → List ℕ
  pointer_wire tag none = []
  pointer_wire tag (some x) = value_wire tag x

  abbrev pub values_wire : ℕ → List N → List ℕ
  values_wire tag [] = []
  values_wire tag (x ∷ xs) = element_wire tag (wire x) ++ values_wire tag xs

  abbrev pub pointers_wire : ℕ → List (Option N) → List ℕ
  pointers_wire tag [] = []
  pointers_wire tag (none ∷ ps) = pointers_wire tag ps
  pointers_wire tag (some x ∷ ps) = element_wire tag (wire x) ++ pointers_wire tag ps

-- What is read back of a pointer: nil, where it is nil or the message has no bytes; and of a list
-- of pointers: those that are not nil.
unfoldable pub pointer_after {ℓ} : {N : Type ℓ} → (N → List ℕ) → (N → N) → Option N → Option N
pointer_after wire after none = none
pointer_after wire after (some x) = if ltb 0 (length (wire x)) then some (after x) else none

unfoldable pub pointers_after {ℓ} : {N : Type ℓ} → (N → N) → List (Option N) → List (Option N)
pointers_after after [] = []
pointers_after after (none ∷ ps) = pointers_after after ps
pointers_after after (some x ∷ ps) = some (after x) ∷ pointers_after after ps

-- A pointer field of the receiver and its bit of `seenOptional`, once what is read back is stored.
abbrev pub keep {ℓ} : {N : Type ℓ} → Option N → Option N → Option N
keep none old = old
keep (some x) old = some x

abbrev pub bit_if {ℓ} : {N : Type ℓ} → Option N → ℕ → ℕ
bit_if none bit = 0
bit_if (some x) bit = bit

abbrev pub IsSent {ℓ} : {N : Type ℓ} → (N → Type 0) → (N → List ℕ) → N → Type 0
IsSent IsValid wire x = IsValid x × IsShort (wire x)

-- A nested message `x`, which is read back as `y`; what it is decoded into may depend on where it stands.
pub element_part {ℓ κ} :
    {N : Type ℓ} {c : Methods N} {M : Type κ} {switch : SwitchOf M} {x y : N} {bs : List ℕ}
    (name : String) (num : ℕ) (small : num < 16) (m : M) (elem : ℕ → N) (set : N → M)
    → EncodesAt c x bs y
    → IsShort bs
    → Case switch num 2 m (λ body slab slab_off i.
      message_case c name num body slab slab_off 2 i m (elem slab_off) set)
    → Part switch
        (size_message c x)
        (emit_message c (tag_of num 2) x)
        (element_wire (tag_of num 2) bs)
        m
        (set y)
element_part name num small m elem set enc h e = record {
  sized = length-message (tag_of num 2) enc h;
  writes = Appends-message (tag_of num 2) enc h;
  reads = λ body slab slab_off r. Takes-tag num 2 _ (omega arith) (omega arith) λ i rest at.
      e body slab slab_off i
      ∙ message_case-message name num body slab slab_off r m (elem slab_off) set i rest enc h at;
}

module _ {ℓ κ} {N : Type ℓ} {c : Methods N} {IsValid : N → Type 0} {wire : N → List ℕ}
    {after : N → N} (laws : Lawful c IsValid wire after) {M : Type κ} {switch : SwitchOf M}
    (name : String) (num : ℕ) (small : num < 16) where
  pub message_part :
      (m : M) (elem : N) (set : N → M) (x : N)
      → IsSent IsValid wire x
      → Case switch num 2 m
          (λ body slab slab_off i. message_case c name num body slab slab_off 2 i m elem set)
      → Part switch
          (size_message c x)
          (emit_message c (tag_of num 2) x)
          (element_wire (tag_of num 2) (wire x))
          m
          (set (after x))
  message_part m elem set x v e =
      element_part name num small m (λ off. elem) set (encodes_at laws x v.0) v.1 e

  pub value_part :
      (m : M) (elem : N) (set : N → M) (x : N)
      → IsSent IsValid wire x
      → Case switch num 2 m
          (λ body slab slab_off i. message_case c name num body slab slab_off 2 i m elem set)
      → Part switch
          (size_value_field c x)
          (emit_value_field c (tag_of num 2) x)
          (value_wire wire (tag_of num 2) x)
          m
          (if ltb 0 (length (wire x)) then set (after x) else m)
  unfolding size_value_field emit_value_field when
  value_part m elem set x v e = rw (laws.size_wire x v.0) (present (ltb 0 (length (wire x))))
    where
      present :
          (b : Bool)
          → Part switch
              (if b then size_message c x else 0)
              (when b (emit_message c (tag_of num 2) x))
              (if b then element_wire (tag_of num 2) (wire x) else [])
              m
              (if b then set (after x) else m)
      present true = message_part m elem set x v e
      present false = absent_part

  pub pointer_part :
      (m : M) (elem : N) (put : N → M) (p : Option N)
      → AllOption (IsSent IsValid wire) p
      → Case switch num 2 m
          (λ body slab slab_off i. message_case c name num body slab slab_off 2 i m elem put)
      → Part switch
          (size_pointer_field c p)
          (emit_pointer_field c (tag_of num 2) p)
          (pointer_wire wire (tag_of num 2) p)
          m
          (stored put m (pointer_after wire after p))
  unfolding size_pointer_field emit_pointer_field pointer_after
  pointer_part m elem put none v e = absent_part
  pointer_part m elem put (some x) v e =
      rw (move (ltb 0 (length (wire x)))) (value_part m elem put x v e)
    where
      move :
          (b : Bool)
          → stored put m (if b then some (after x) else none) ≡ (if b then put (after x) else m)
      move true = refl
      move false = refl

  -- `elem got` is the message at the index behind the elements `got`.
  pub values_part :
      (elem : List N → N) (put : List N → M) (got xs : List N)
      → All (IsSent IsValid wire) xs
      → ((got : List N)
          → Case switch num 2 (put got) (λ body slab slab_off i.
            message_case c name num body slab slab_off 2 i
              (put got)
              (elem got)
              (λ x. put (got ++ (x ∷ [])))))
      → Part switch
          (size_values_field c xs)
          (emit_values_field c (tag_of num 2) xs)
          (values_wire wire (tag_of num 2) xs)
          (put got)
          (put (got ++ map after xs))
  unfolding size_values_field emit_values_field each
  values_part elem put got [] v e = rw append-nil absent_part
  values_part elem put got (x ∷ xs) v e =
      Part-to (ap put (append_assoc got (after x ∷ []) (map after xs))) (
        message_part (put got) (elem got) (λ x. put (got ++ (x ∷ []))) x v.0 (e got)
        ⊕ values_part elem put (got ++ (after x ∷ [])) xs v.1 e)

  pub pointers_part :
      (elem : List (Option N) → N) (put : List (Option N) → M) (got ps : List (Option N))
      → All (AllOption (IsSent IsValid wire)) ps
      → ((got : List (Option N))
          → Case switch num 2 (put got) (λ body slab slab_off i.
            message_case c name num body slab slab_off 2 i
              (put got)
              (elem got)
              (λ x. put (got ++ (some x ∷ [])))))
      → Part switch
          (size_pointers_field c ps)
          (emit_pointers_field c (tag_of num 2) ps)
          (pointers_wire wire (tag_of num 2) ps)
          (put got)
          (put (got ++ pointers_after after ps))
  unfolding size_pointers_field emit_pointers_field pointers_after each
  pointers_part elem put got [] v e = rw append-nil absent_part
  pointers_part elem put got (none ∷ ps) v e =
      let others = pointers_part elem put got ps v.1 e in
      record {
        sized = others.sized;
        writes = Appends-⨾ Appends-nothing others.writes;
        reads = others.reads;
      }
  pointers_part elem put got (some x ∷ ps) v e =
      Part-to (ap put (append_assoc got (some (after x) ∷ []) (pointers_after after ps))) (
        message_part (put got) (elem got) (λ x. put (got ++ (some x ∷ []))) x v.0 (e got)
        ⊕ pointers_part elem put (got ++ (some (after x) ∷ [])) ps v.1 e)

pub message-Stays {ℓ κ} :
    {N : Type ℓ} {c : Methods N} {IsValid : N → Type 0} {wire : N → List ℕ} {after : N → N}
    {M : Type κ} (laws : Lawful c IsValid wire after) (name : String) (num : ℕ) (body slab : List ℕ)
    (slab_off wire_type i : ℕ) (m : M) (elem : N) (set : N → M)
    → i ≤ length body
    → InSlab body slab slab_off
    → Stays i (length body) (message_case c name num body slab slab_off wire_type i m elem set)
message-Stays {c = c} laws name num body slab slab_off wire_type i m elem set h r = record {
  ends =
      Ends-message_case c name num body slab slab_off r m elem set wire_type i h
        (λ s off inside shorter. laws.ends_at elem s slab off inside);
}
