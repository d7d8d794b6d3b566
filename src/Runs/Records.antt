-- ===== src/Runs/Records.antt =====
-- The larger messages at concrete values.
use protoc_gen_codec.Base.{
  List, [], arith, drop, false, if◌then◌else◌, inl, inr, length, ltb, refl, replicate, some, true,
  ℕ, ◌++◌, ◌∷◌, ◌≡◌,
}
use protoc_gen_codec.Fixtures.Evidence.{Evidence, evidence}
use protoc_gen_codec.Fixtures.Evidence.Laws.{IsEvidence, evidence_round_trip, evidence_wire}
use protoc_gen_codec.Fixtures.Fixture.{Fixture, fixture}
use protoc_gen_codec.Fixtures.Fixture.Laws.{IsFixture, fixture_round_trip, fixture_wire}
use protoc_gen_codec.Fixtures.Fixture.Unknown.{fixture_unknown_refused, fixture_unknown_skipped}
use protoc_gen_codec.Fixtures.Patch.{Patch, patch}
use protoc_gen_codec.Fixtures.Patch.Laws.{IsPatch, patch_round_trip, patch_wire}
use protoc_gen_codec.Message.{marshal_codec, marshal_to_codec, size_codec, unmarshal_codec}
use protoc_gen_codec.Message.Kinds.{zero_digest}
use protoc_gen_codec.Message.Unknown.{UnknownFields, a_varint, and_field, no_fields, some_bytes}
use protoc_gen_codec.Runtime.Errors.{
  buffer_too_short, err, invalid_wire_type, ok, sentinel, with_wire_type,
}
use protoc_gen_codec.Runtime.Varint.Groups.{varint}
use protoc_gen_codec.Wire.Loop.{done, failed}
use protoc_gen_codec.Wire.Loop.Laws.{field_bytes}

-- "ab" and "c".
abbrev ab : List ℕ
ab = 97 ∷ 98 ∷ []

abbrev digest : List ℕ
digest = 5 ∷ replicate 31 0

abbrev room : List ℕ
room = replicate 80 7

abbrev pub some_fixture : Fixture
some_fixture = record {
  id = ab;
  kind = 150;
  status = 150;
  score = 150;
  sequence = 150;
  enabled = true;
  timestamp = 150;
  ref = digest;
  tags = ab ∷ [] ∷ [];
  data_bytes = ab;
}

abbrev other_fixture : Fixture
other_fixture = record {
  id = [];
  kind = 0;
  status = 0;
  score = 0;
  sequence = 0;
  enabled = false;
  timestamp = 0;
  ref = zero_digest;
  tags = [];
  data_bytes = [];
}

some_fixture-IsFixture : IsFixture some_fixture
some_fixture-IsFixture = record {
  id_short = omega arith;
  kind_fits = omega arith;
  status_fits = omega arith;
  score_fits = omega arith;
  sequence_fits = omega arith;
  timestamp_fits = omega arith;
  ref_full = refl;
  tags_short = (omega arith, (omega arith, tt));
  data_bytes_short = omega arith;
}

fixture_round_trip_example :
    (marshal_codec fixture (some some_fixture) ≡ ok (fixture_wire some_fixture))
    × (size_codec fixture (some some_fixture) ≡ length (fixture_wire some_fixture))
    × (marshal_to_codec fixture (some some_fixture) room ≡ (
        if ltb (length room) (length (fixture_wire some_fixture))
        then err (sentinel buffer_too_short)
        else ok (
          fixture_wire some_fixture ++ drop (length (fixture_wire some_fixture)) room,
          length (fixture_wire some_fixture),
        )))
    × (unmarshal_codec fixture (some other_fixture) (fixture_wire some_fixture)
        ≡ done some_fixture (length (fixture_wire some_fixture)))
fixture_round_trip_example =
    fixture_round_trip some_fixture other_fixture room some_fixture-IsFixture

abbrev pub some_patch : Patch
some_patch = record {
  kind = 150;
  vertex_id = 150;
  sequence = 150;
  source = 150;
  text_val = ab;
  int_val = 150;
  fixed64_val = 9;
  blob_ref = digest;
}

abbrev other_patch : Patch
other_patch = record {
  kind = 0;
  vertex_id = 0;
  sequence = 0;
  source = 0;
  text_val = [];
  int_val = 0;
  fixed64_val = 0;
  blob_ref = zero_digest;
}

some_patch-IsPatch : IsPatch some_patch
some_patch-IsPatch = record {
  kind_fits = omega arith;
  vertex_id_fits = omega arith;
  sequence_fits = omega arith;
  source_fits = omega arith;
  text_val_short = omega arith;
  int_val_fits = omega arith;
  fixed64_val_fits = omega arith;
  blob_ref_full = refl;
}

patch_round_trip_example :
    (marshal_codec patch (some some_patch) ≡ ok (patch_wire some_patch))
    × (size_codec patch (some some_patch) ≡ length (patch_wire some_patch))
    × (marshal_to_codec patch (some some_patch) room ≡ (
        if ltb (length room) (length (patch_wire some_patch))
        then err (sentinel buffer_too_short)
        else ok (
          patch_wire some_patch ++ drop (length (patch_wire some_patch)) room,
          length (patch_wire some_patch),
        )))
    × (unmarshal_codec patch (some other_patch) (patch_wire some_patch)
        ≡ done some_patch (length (patch_wire some_patch)))
patch_round_trip_example = patch_round_trip some_patch other_patch room some_patch-IsPatch

abbrev pub some_evidence : Evidence
some_evidence = record {
  kind = 150;
  durability = 150;
  access = 150;
  trace_id = ab;
  federation_trace_id = ab;
  job_id = ab;
  thread_id = ab;
  tenant_id = ab;
  timestamp_ms = 150;
  payload_ref = digest;
  jurisdictions = ab ∷ [] ∷ [];
  retention_policy_id = ab;
}

abbrev other_evidence : Evidence
other_evidence = record {
  kind = 0;
  durability = 0;
  access = 0;
  trace_id = [];
  federation_trace_id = [];
  job_id = [];
  thread_id = [];
  tenant_id = [];
  timestamp_ms = 0;
  payload_ref = zero_digest;
  jurisdictions = [];
  retention_policy_id = [];
}

some_evidence-IsEvidence : IsEvidence some_evidence
some_evidence-IsEvidence = record {
  kind_fits = omega arith;
  durability_fits = omega arith;
  access_fits = omega arith;
  trace_id_short = omega arith;
  federation_trace_id_short = omega arith;
  job_id_short = omega arith;
  thread_id_short = omega arith;
  tenant_id_short = omega arith;
  timestamp_ms_fits = omega arith;
  payload_ref_full = refl;
  jurisdictions_short = (omega arith, (omega arith, tt));
  retention_policy_id_short = omega arith;
}

evidence_round_trip_example :
    (marshal_codec evidence (some some_evidence) ≡ ok (evidence_wire some_evidence))
    × (size_codec evidence (some some_evidence) ≡ length (evidence_wire some_evidence))
    × (marshal_to_codec evidence (some some_evidence) room ≡ (
        if ltb (length room) (length (evidence_wire some_evidence))
        then err (sentinel buffer_too_short)
        else ok (
          evidence_wire some_evidence ++ drop (length (evidence_wire some_evidence)) room,
          length (evidence_wire some_evidence),
        )))
    × (unmarshal_codec evidence (some other_evidence) (evidence_wire some_evidence)
        ≡ done some_evidence (length (evidence_wire some_evidence)))
evidence_round_trip_example =
    evidence_round_trip some_evidence other_evidence room some_evidence-IsEvidence

-- A varint in front, and two bytes behind, in fields with unknown numbers.
abbrev in_front : List ℕ
in_front = field_bytes 11 0 (varint 5) ++ []

abbrev at_the_end : List ℕ
at_the_end = field_bytes 99 2 (varint (length ab) ++ ab) ++ []

in_front-UnknownFields : UnknownFields 10 in_front
in_front-UnknownFields =
    and_field 11 0 (varint 5) [] (omega arith) (omega arith) (a_varint 5 (omega arith)) no_fields

at_the_end-UnknownFields : UnknownFields 10 at_the_end
at_the_end-UnknownFields =
    and_field 99 2 (varint (length ab) ++ ab) [] (omega arith) (omega arith)
      (some_bytes ab (omega arith)) no_fields

fixture_unknown_skipped_example :
    unmarshal_codec fixture
      (some other_fixture)
      (in_front ++ fixture_wire some_fixture ++ at_the_end)
    ≡ done some_fixture (length (in_front ++ fixture_wire some_fixture ++ at_the_end))
fixture_unknown_skipped_example =
    fixture_unknown_skipped some_fixture other_fixture in_front at_the_end some_fixture-IsFixture
      in_front-UnknownFields at_the_end-UnknownFields

-- The end of a group, which the format has no more.
fixture_unknown_refused_example :
    unmarshal_codec fixture
      (some other_fixture)
      (in_front ++ fixture_wire some_fixture ++ at_the_end ++ field_bytes 12 4 (7 ∷ []))
    ≡ failed (with_wire_type 4 (sentinel invalid_wire_type)) some_fixture
fixture_unknown_refused_example =
    fixture_unknown_refused some_fixture other_fixture in_front at_the_end (7 ∷ []) 12 4
      some_fixture-IsFixture in_front-UnknownFields at_the_end-UnknownFields (omega arith)
      (omega arith) (inr (inl refl))
