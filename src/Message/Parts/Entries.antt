-- ===== src/Message/Parts/Entries.antt =====
-- The fields within the entry of a map, for the kinds that keys and values have.
use protoc_gen_codec.Base.{List, arith, ℕ, ◌++◌, ◌<◌, ◌∙◌, ◌∷◌, ◌≡◌}
use protoc_gen_codec.Message.Kinds.Bytes.{IsShort, element_wire}
use protoc_gen_codec.Message.Kinds.Maps.{entry_bytes, entry_varint}
use protoc_gen_codec.Message.Kinds.Maps.Laws.{entry_bytes-element, entry_varint-varint}
use protoc_gen_codec.Runtime.Errors.{Error}
use protoc_gen_codec.Runtime.Varint.{IsU64}
use protoc_gen_codec.Runtime.Varint.Groups.{varint}
use protoc_gen_codec.Wire.Loop.{Switch}
use protoc_gen_codec.Wire.Loop.Laws.{Takes, Takes-tag, tag_of}
use protoc_gen_codec.Wire.Slab.{InSlab}

module _ {E : Type 0} (bad : ℕ → Error) (entry slab : List ℕ) (slab_off : ℕ)
    (r : InSlab entry slab slab_off) (switch : Switch E) (num : ℕ) (small : num < 16) (kv : E) where
  pub Takes-entry_bytes :
      (set : List ℕ → E) (s : List ℕ)
      → IsShort s
      → ((i : ℕ) → switch num 2 i kv ≡ entry_bytes entry i kv slab slab_off set)
      → Takes bad entry switch (element_wire (tag_of num 2) s) kv (set s)
  Takes-entry_bytes set s h e =
      Takes-tag num 2 _ (omega arith) (omega arith)
        λ i rest at. e i ∙ entry_bytes-element entry kv slab slab_off set i s rest r h at

  pub Takes-entry_varint :
      (set : ℕ → E) (x : ℕ)
      → IsU64 x
      → ((i : ℕ) → switch num 0 i kv ≡ entry_varint entry i kv set)
      → Takes bad entry switch (tag_of num 0 ∷ varint x) kv (set x)
  Takes-entry_varint set x h e =
      Takes-tag num 0 _ (omega arith) (omega arith)
        λ i rest at. e i ∙ entry_varint-varint entry kv set i x rest h at

-- A key, and a value of bytes or a number, on the wire.
abbrev pub bytes_entry_wire : List ℕ × List ℕ → List ℕ
bytes_entry_wire p = element_wire 0x0a p.0 ++ element_wire 0x12 p.1

abbrev pub number_entry_wire : List ℕ × ℕ → List ℕ
number_entry_wire p = element_wire 0x0a p.0 ++ (0x10 ∷ varint p.1)
