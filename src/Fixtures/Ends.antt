-- ===== src/Fixtures/Ends.antt =====
-- What UnmarshalCodec of every type does on arbitrary bytes.
use protoc_gen_codec.Base.{List, Option, length, refl, some, ℕ, ◌≡◌}
use protoc_gen_codec.Fixtures.BoolMapHolder.{
  BoolMapHolder, bool_map_holder, bool_map_holder_reset, bool_map_holder_unmarshal_internal,
}
use protoc_gen_codec.Fixtures.BoolMapHolder.Laws.{bool_map_holder-Lawful}
use protoc_gen_codec.Fixtures.BytesPool.{
  BytesPool, bytes_pool, bytes_pool_reset, bytes_pool_unmarshal_internal,
}
use protoc_gen_codec.Fixtures.BytesPool.Laws.{bytes_pool-Lawful}
use protoc_gen_codec.Fixtures.Container.{Container, container}
use protoc_gen_codec.Fixtures.Container.Laws.{container-Lawful}
use protoc_gen_codec.Fixtures.CrossContainer.{CrossContainer, cross_container}
use protoc_gen_codec.Fixtures.CrossContainer.Laws.{cross_container-Lawful}
use protoc_gen_codec.Fixtures.Evidence.{
  Evidence, evidence, evidence_reset, evidence_unmarshal_internal,
}
use protoc_gen_codec.Fixtures.Evidence.Laws.{evidence-Lawful}
use protoc_gen_codec.Fixtures.External.{
  External, external, external_reset, external_unmarshal_internal,
}
use protoc_gen_codec.Fixtures.External.Laws.{external-Lawful}
use protoc_gen_codec.Fixtures.Fixture.{Fixture, fixture, fixture_reset, fixture_unmarshal_internal}
use protoc_gen_codec.Fixtures.Fixture.Laws.{fixture-Lawful}
use protoc_gen_codec.Fixtures.Inner.{Inner, inner, inner_reset, inner_unmarshal_internal}
use protoc_gen_codec.Fixtures.Inner.Laws.{inner-Lawful}
use protoc_gen_codec.Fixtures.MapHolder.{
  MapHolder, map_holder, map_holder_reset, map_holder_unmarshal_internal,
}
use protoc_gen_codec.Fixtures.MapHolder.Laws.{map_holder-Lawful}
use protoc_gen_codec.Fixtures.Minimal.{Minimal, minimal, minimal_reset, minimal_unmarshal_internal}
use protoc_gen_codec.Fixtures.Minimal.Laws.{minimal-Lawful}
use protoc_gen_codec.Fixtures.NumericOnly.{NumericOnly, numeric_only}
use protoc_gen_codec.Fixtures.NumericOnly.Laws.{numeric_only-Lawful}
use protoc_gen_codec.Fixtures.OneofPayload.{OneofPayload, oneof_payload}
use protoc_gen_codec.Fixtures.OneofPayload.Laws.{oneof_payload-Lawful}
use protoc_gen_codec.Fixtures.PackedZigzag.{
  PackedZigzag, packed_zigzag, packed_zigzag_reset, packed_zigzag_unmarshal_internal,
}
use protoc_gen_codec.Fixtures.PackedZigzag.Laws.{packed_zigzag-Lawful}
use protoc_gen_codec.Fixtures.Patch.{Patch, patch, patch_reset, patch_unmarshal_internal}
use protoc_gen_codec.Fixtures.Patch.Laws.{patch-Lawful}
use protoc_gen_codec.Fixtures.TimeHolder.{
  TimeHolder, time_holder, time_holder_reset, time_holder_unmarshal_internal,
}
use protoc_gen_codec.Fixtures.TimeHolder.Laws.{time_holder-Lawful}
use protoc_gen_codec.Fixtures.Tree.{Tree, TreeSlots, tree}
use protoc_gen_codec.Fixtures.Tree.Laws.{tree-Lawful}
use protoc_gen_codec.Fixtures.TypedStrings.{
  TypedStrings, typed_strings, typed_strings_reset, typed_strings_unmarshal_internal,
}
use protoc_gen_codec.Fixtures.TypedStrings.Laws.{typed_strings-Lawful}
use protoc_gen_codec.Fixtures.ValueContainer.{
  ValueContainer, value_container, value_container_reset, value_container_unmarshal_internal,
}
use protoc_gen_codec.Fixtures.ValueContainer.Laws.{value_container-Lawful}
use protoc_gen_codec.Message.{Methods, reset_codec, unmarshal_codec}
use protoc_gen_codec.Message.Laws.{unmarshal_codec_ends}
use protoc_gen_codec.Wire.Loop.Safe.{EndsAt}

-- A receiver of each type.
pub record Receivers : Type 0 where
  pub to_fixture : Fixture
  pub to_patch : Patch
  pub to_evidence : Evidence
  pub to_minimal : Minimal
  pub to_inner : Inner
  pub to_typed_strings : TypedStrings
  pub to_bytes_pool : BytesPool
  pub to_packed_zigzag : PackedZigzag
  pub to_external : External
  pub to_map_holder : MapHolder
  pub to_bool_map_holder : BoolMapHolder
  pub to_time_holder : TimeHolder
  pub to_numeric_only : NumericOnly
  pub to_oneof_payload : OneofPayload
  pub to_value_container : ValueContainer
  pub to_container : Container
  pub to_cross_container : CrossContainer
  pub to_tree : Tree

-- What the backing arrays of the receivers' slices hold.
pub record Slots : Type 0 where
  pub items : ℕ → Inner
  pub children : ℕ → Option Inner
  pub externals : ℕ → External
  pub external_pointers : ℕ → Option External
  pub trees : TreeSlots

module _ {M : Type 0} (c : Methods M) (m : M) (bs : List ℕ) where
  abbrev pub Returns : Type 0
  Returns = EndsAt (length bs) (unmarshal_codec c (some m) bs)

  -- What the receiver holds makes no difference.
  abbrev pub Forgets : Type 0
  Forgets = unmarshal_codec c (some m) bs ≡ unmarshal_codec c (reset_codec c (some m)) bs

-- On any bytes and for any receivers, whatever the backing arrays of their slices hold, UnmarshalCodec
-- of each message type returns: with the whole input read, or with an error, also from within a
-- nested message, and never with a panic. For the types without pointers, optional fields and oneofs, what the
-- receiver held before makes no difference to the result.
pub every_unmarshal_ends :
    (r : Receivers) (s : Slots) (bs : List ℕ)
    → (Returns fixture r.to_fixture bs × Forgets fixture r.to_fixture bs)
      × (Returns patch r.to_patch bs × Forgets patch r.to_patch bs)
      × (Returns evidence r.to_evidence bs × Forgets evidence r.to_evidence bs)
      × (Returns minimal r.to_minimal bs × Forgets minimal r.to_minimal bs)
      × (Returns inner r.to_inner bs × Forgets inner r.to_inner bs)
      × (Returns typed_strings r.to_typed_strings bs × Forgets typed_strings r.to_typed_strings bs)
      × (Returns bytes_pool r.to_bytes_pool bs × Forgets bytes_pool r.to_bytes_pool bs)
      × (Returns packed_zigzag r.to_packed_zigzag bs × Forgets packed_zigzag r.to_packed_zigzag bs)
      × (Returns external r.to_external bs × Forgets external r.to_external bs)
      × (Returns map_holder r.to_map_holder bs × Forgets map_holder r.to_map_holder bs)
      × (Returns bool_map_holder r.to_bool_map_holder bs
          × Forgets bool_map_holder r.to_bool_map_holder bs)
      × (Returns time_holder r.to_time_holder bs × Forgets time_holder r.to_time_holder bs)
      × Returns numeric_only r.to_numeric_only bs
      × Returns oneof_payload r.to_oneof_payload bs
      × (Returns (value_container s.items) r.to_value_container bs
          × Forgets (value_container s.items) r.to_value_container bs)
      × Returns (container s.children) r.to_container bs
      × Returns (cross_container s.externals s.external_pointers) r.to_cross_container bs
      × Returns (tree s.trees) r.to_tree bs
unfolding unmarshal_codec reset_codec fixture_unmarshal_internal fixture_reset
    patch_unmarshal_internal patch_reset evidence_unmarshal_internal evidence_reset
    minimal_unmarshal_internal minimal_reset inner_unmarshal_internal inner_reset
    typed_strings_unmarshal_internal typed_strings_reset bytes_pool_unmarshal_internal
    bytes_pool_reset packed_zigzag_unmarshal_internal packed_zigzag_reset
    external_unmarshal_internal external_reset map_holder_unmarshal_internal map_holder_reset
    bool_map_holder_unmarshal_internal bool_map_holder_reset time_holder_unmarshal_internal
    time_holder_reset value_container_unmarshal_internal value_container_reset
every_unmarshal_ends r s bs = (
  (unmarshal_codec_ends fixture-Lawful r.to_fixture bs, refl),
  (unmarshal_codec_ends patch-Lawful r.to_patch bs, refl),
  (unmarshal_codec_ends evidence-Lawful r.to_evidence bs, refl),
  (unmarshal_codec_ends minimal-Lawful r.to_minimal bs, refl),
  (unmarshal_codec_ends inner-Lawful r.to_inner bs, refl),
  (unmarshal_codec_ends typed_strings-Lawful r.to_typed_strings bs, refl),
  (unmarshal_codec_ends bytes_pool-Lawful r.to_bytes_pool bs, refl),
  (unmarshal_codec_ends packed_zigzag-Lawful r.to_packed_zigzag bs, refl),
  (unmarshal_codec_ends external-Lawful r.to_external bs, refl),
  (unmarshal_codec_ends map_holder-Lawful r.to_map_holder bs, refl),
  (unmarshal_codec_ends bool_map_holder-Lawful r.to_bool_map_holder bs, refl),
  (unmarshal_codec_ends time_holder-Lawful r.to_time_holder bs, refl),
  unmarshal_codec_ends numeric_only-Lawful r.to_numeric_only bs,
  unmarshal_codec_ends oneof_payload-Lawful r.to_oneof_payload bs,
  (unmarshal_codec_ends (value_container-Lawful s.items) r.to_value_container bs, refl),
  unmarshal_codec_ends (container-Lawful s.children) r.to_container bs,
  unmarshal_codec_ends (cross_container-Lawful s.externals s.external_pointers) r.to_cross_container
      bs,
  unmarshal_codec_ends (tree-Lawful s.trees) r.to_tree bs,
)
