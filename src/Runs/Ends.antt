-- ===== src/Runs/Ends.antt =====
-- Arbitrary bytes for every message type, at concrete inputs.
use protoc_gen_codec.Base.{List, [], ℕ, ◌∷◌}
use protoc_gen_codec.Fixtures.BoolMapHolder.{bool_map_holder}
use protoc_gen_codec.Fixtures.BytesPool.{bytes_pool}
use protoc_gen_codec.Fixtures.Container.{container}
use protoc_gen_codec.Fixtures.CrossContainer.{cross_container}
use protoc_gen_codec.Fixtures.Ends.{Forgets, Receivers, Returns, Slots, every_unmarshal_ends}
use protoc_gen_codec.Fixtures.Evidence.{evidence}
use protoc_gen_codec.Fixtures.External.{external}
use protoc_gen_codec.Fixtures.Fixture.{fixture}
use protoc_gen_codec.Fixtures.Inner.{inner}
use protoc_gen_codec.Fixtures.MapHolder.{map_holder}
use protoc_gen_codec.Fixtures.Minimal.{minimal}
use protoc_gen_codec.Fixtures.NumericOnly.{numeric_only}
use protoc_gen_codec.Fixtures.OneofPayload.{oneof_payload}
use protoc_gen_codec.Fixtures.PackedZigzag.{packed_zigzag}
use protoc_gen_codec.Fixtures.Patch.{patch}
use protoc_gen_codec.Fixtures.TimeHolder.{time_holder}
use protoc_gen_codec.Fixtures.Tree.{tree}
use protoc_gen_codec.Fixtures.TypedStrings.{typed_strings}
use protoc_gen_codec.Fixtures.ValueContainer.{value_container}
use protoc_gen_codec.Runs.Maps.{some_flags, some_maps, some_oneof}
use protoc_gen_codec.Runs.Messages.{
  some_bytes_pool, some_inner, some_minimal, some_numeric_only, some_typed_strings,
}
use protoc_gen_codec.Runs.Nested.{
  an_external, container_slot, externals_slot, pointers_slot, some_container, some_cross_container,
  some_value_container, value_slot,
}
use protoc_gen_codec.Runs.Packed.{some_packed_zigzag}
use protoc_gen_codec.Runs.Records.{some_evidence, some_fixture, some_patch}
use protoc_gen_codec.Runs.Times.{some_times}
use protoc_gen_codec.Runs.Tree.{some_tree, tree_slots}

abbrev receivers : Receivers
receivers = record {
  to_fixture = some_fixture;
  to_patch = some_patch;
  to_evidence = some_evidence;
  to_minimal = some_minimal;
  to_inner = some_inner;
  to_typed_strings = some_typed_strings;
  to_bytes_pool = some_bytes_pool;
  to_packed_zigzag = some_packed_zigzag;
  to_external = an_external;
  to_map_holder = some_maps;
  to_bool_map_holder = some_flags;
  to_time_holder = some_times;
  to_numeric_only = some_numeric_only;
  to_oneof_payload = some_oneof;
  to_value_container = some_value_container;
  to_container = some_container;
  to_cross_container = some_cross_container;
  to_tree = some_tree;
}

abbrev slots : Slots
slots = record {
  items = value_slot;
  children = container_slot;
  externals = externals_slot;
  external_pointers = pointers_slot;
  trees = tree_slots;
}

-- A nested message that is cut off.
abbrev cut_off : List ℕ
cut_off = 0x12 ∷ 2 ∷ 0x0a ∷ 5 ∷ []

every_unmarshal_ends_example :
    (Returns fixture receivers.to_fixture cut_off × Forgets fixture receivers.to_fixture cut_off)
    × (Returns patch receivers.to_patch cut_off × Forgets patch receivers.to_patch cut_off)
    × (Returns evidence receivers.to_evidence cut_off
        × Forgets evidence receivers.to_evidence cut_off)
    × (Returns minimal receivers.to_minimal cut_off × Forgets minimal receivers.to_minimal cut_off)
    × (Returns inner receivers.to_inner cut_off × Forgets inner receivers.to_inner cut_off)
    × (Returns typed_strings receivers.to_typed_strings cut_off
        × Forgets typed_strings receivers.to_typed_strings cut_off)
    × (Returns bytes_pool receivers.to_bytes_pool cut_off
        × Forgets bytes_pool receivers.to_bytes_pool cut_off)
    × (Returns packed_zigzag receivers.to_packed_zigzag cut_off
        × Forgets packed_zigzag receivers.to_packed_zigzag cut_off)
    × (Returns external receivers.to_external cut_off
        × Forgets external receivers.to_external cut_off)
    × (Returns map_holder receivers.to_map_holder cut_off
        × Forgets map_holder receivers.to_map_holder cut_off)
    × (Returns bool_map_holder receivers.to_bool_map_holder cut_off
        × Forgets bool_map_holder receivers.to_bool_map_holder cut_off)
    × (Returns time_holder receivers.to_time_holder cut_off
        × Forgets time_holder receivers.to_time_holder cut_off)
    × Returns numeric_only receivers.to_numeric_only cut_off
    × Returns oneof_payload receivers.to_oneof_payload cut_off
    × (Returns (value_container slots.items) receivers.to_value_container cut_off
        × Forgets (value_container slots.items) receivers.to_value_container cut_off)
    × Returns (container slots.children) receivers.to_container cut_off
    × Returns
        (cross_container slots.externals slots.external_pointers)
        receivers.to_cross_container
        cut_off
    × Returns (tree slots.trees) receivers.to_tree cut_off
every_unmarshal_ends_example = every_unmarshal_ends receivers slots cut_off
