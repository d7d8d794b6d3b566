-- ===== src/Fixtures/Container/Room.antt =====
-- The room that the decoder of `Container` makes for the children of a nil slice.
use native.Mathlib.Nat.{zero-add}
use protoc_gen_codec.Base.{List, Option, arith, length, refl, some, subst, ℕ, ◌≡◌}
use protoc_gen_codec.Fixtures.Container.{Container, container}
use protoc_gen_codec.Fixtures.Container.Laws.{
  IsContainer, container-Lawful, container_after, container_wire,
}
use protoc_gen_codec.Fixtures.Inner.{Inner}
use protoc_gen_codec.Fixtures.Inner.Laws.{IsInner, inner_wire}
use protoc_gen_codec.Message.{unmarshal_codec}
use protoc_gen_codec.Message.Kinds.{bad_tag}
use protoc_gen_codec.Message.Laws.{unmarshal_codec-wire}
use protoc_gen_codec.Message.Parts.Nested.{pointers_after}
use protoc_gen_codec.Message.PreScan.{pre_count, pre_switch}
use protoc_gen_codec.Message.PreScan.Counts.{
  bytes-Scans, pointer-Scans, pointers-Scans, pre_count_lem,
}
use protoc_gen_codec.Wire.Loop.{done}
use protoc_gen_codec.Wire.Loop.Laws.{Takes, Takes-append}

container_wire-Scans :
    (body : List ℕ) (m : Container)
    → IsContainer m
    → Takes bad_tag body
        (pre_switch 3 body)
        (container_wire m)
        0
        (length (container_after m).children)
unfolding container_after
container_wire-Scans body m v =
    subst (Takes bad_tag body (pre_switch 3 body) (container_wire m) 0)
      (zero-add (length (pointers_after (λ (x : Inner). x) m.children)))
      (Takes-append
        (Takes-append (bytes-Scans 3 body 1 0 m.name (omega arith) v.name_short refl)
          (pointer-Scans 3 body IsInner inner_wire 2 (omega arith) 0 m.inner v.inner_sent refl))
        (pointers-Scans 3 body IsInner inner_wire 3 (omega arith) (λ x. x) 0 m.children
          v.children_sent refl))

-- For every valid `Container`, UnmarshalCodec on its wire bytes leaves as many children in the
-- receiver as the scan before the loop counted, so a slice that is made for them is neither short
-- nor too large.
pub container_room :
    (children_slot : ℕ → Option Inner) (m r : Container)
    → IsContainer m
    → (x : Container) × (unmarshal_codec (container children_slot) (some r) (container_wire m)
        ≡ done x (length (container_wire m)))
      × (pre_count 3 (container_wire m) ≡ some (length x.children))
container_room children_slot m r v = (
  container_after m,
  unmarshal_codec-wire (container-Lawful children_slot) m r v,
  pre_count_lem 3 (container_wire m) _ (container_wire-Scans (container_wire m) m v),
)
