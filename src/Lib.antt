-- ===== src/Lib.antt =====
-- protoc-gen-codec: the proto3 runtime of the generated codecs and the codecs of the fixtures.
--
-- The program is a protoc plugin. internal/core analyses a .proto file and its annotations,
-- internal/lang/golang prints methods for hand-written Go types, and the printed methods call the
-- runtime package lang/go/codec. This library models the runtime and the methods as they stand
-- printed in lang/go/integration/fixture.codec.go, which is what a user of the plugin runs.
--
-- Parts and files:
-- - Runtime/Varint, Runtime/Zigzag, Runtime/Skip: lang/go/codec/wire.go, one function each
--   (SizeVarint is size_varint, EncodeVarint is encode_varint, and so on).
-- - Runtime/Time: lang/go/codec/wkt.go, the bodies of Timestamp and Duration.
-- - Runtime/Errors: lang/go/codec/errors.go, and the results of calls that may return an error or
--   panic.
-- - Wire/Emit, Wire/Read, Wire/Loop: the statements the printed methods are made of. Emit writes
--   at the cursor `n` of `buf`, Read reads at the index `i` of `data`, Loop is the loop over the
--   fields with its switch.
-- - Message: what the printed methods of all types share. `Methods` holds a type's SizeCodec,
--   MarshalCodecInternal, UnmarshalCodecInternal and ResetCodec on a receiver that is not nil;
--   marshal_codec, marshal_to_codec and unmarshal_codec are MarshalCodec, MarshalToCodec and
--   UnmarshalCodec over them, with the nil receiver. Message/Kinds has the piece of each method
--   for one field, by the field's kind; Message/Parts puts the pieces of a field together and the
--   fields in a row; Message/Laws states what the methods of a type promise one another
--   (`Lawful`), and what follows for the methods over them. Message/Maps has Go maps and sorting,
--   Message/PreScan the scan for repeated messages, Message/Unknown fields with unknown numbers.
-- - Fixtures: a module for each type of lang/go/integration/fixture.go, cross.go and
--   external/external.go, its methods put together as in fixture.codec.go, cross.codec.go and
--   external/external.codec.go, and in the child Laws its encoding and its theorems.
--   Fixtures/Ends puts together what all decoders do on arbitrary bytes.
-- - Core/Tags: TagValue, TagSize, TagBytes and SovLocal of internal/core/analysis.go, by which
--   the generator prints the tags that the methods contain. Core/Options: the scans over raw
--   options of internal/core/options.go, with package protowire as a parameter.
-- - Base: bytes and slices as lists, tests on numbers, bit operations as arithmetic.
-- - Runs: the theorems at concrete inputs.
--
-- Data: a byte is a number below 256, a slice or a string the list of its bytes, a nil slice the
-- empty list. An integer of w bits is its bit pattern, a number below 2 ^ w, and conversions and
-- shifts write `% 2 ^ w` out. A pointer receiver is an Option, its object passed in and returned.
-- The content of a slice is modelled, not its capacity or backing array. An index or slice
-- expression out of range is `fault` in a call and `panicked` in a decoding. `int(vLen)` is
-- exact, since the code compares `vLen` with what is left of the data first. Strings and byte
-- slices in a valid value are shorter than 2 ^ 63, the range of Go's int; sums of sizes are not
-- reduced, since a message that large is in no memory.
--
-- Loops: the loop of EncodeVarint is recursion on the accessibility of the number, the loop of
-- DecodeVarint on the bytes. The loop over the fields has as much fuel as the body has bytes.
-- Each field takes a byte at least, so it is enough, and so is it for the loop over a packed
-- field; running out is the outcome `spent`, and the safety theorems exclude it. time.Time is an
-- instant in seconds and nanoseconds; of package time, IsZero, Unix and the carry of time.Unix
-- are written out as documented, as are bits.Len64 of math/bits and the functions used of
-- encoding/binary.
--
-- Nested messages: a nested body is decoded by the same methods of its type, from the part of the
-- data that holds it and at its offset in the slab (Message/Kinds/Nested; Wire/Slab says that the
-- slab holds the body there). A decoder takes the elements of a reused backing array into use
-- again. What the array holds behind the receiver's slice is an argument of the decoder, the slot
-- functions: from an index to the message there, or to `none` for a nil pointer or beyond the
-- capacity. The theorems hold for every slot function. Two pointers of a value do not point to
-- the same message. `container_after` and `cross_container_after` say what is read back: a pointer
-- to a message without bytes is nil then, and nil elements of lists are gone.
--
-- TimeHolder holds a time.Time as an instant with a mark, which says whether `==` with another time
-- depends on the instant alone: it is in UTC and has no monotonic clock reading. The bodies of its
-- fields are read and written as those of nested messages are, with the functions of Runtime/Time in
-- the places of the methods.
--
-- Tree nests messages of its own type, so its decoder calls itself. The recursion is on fuel, one
-- more than the body has bytes; a child's body is shorter than the one it stands in, so it is
-- enough (Fixtures/Tree/Laws). The code has no bound on the depth of its own.
--
-- Maps: a map is the list of its entries, with different keys, in the order that a `range` visits
-- them, so that a theorem for every list holds for every order (Message/Maps). slices.Sort is
-- insertion sort by bytes, and sorting is proved not to depend on the order it is given. The loop
-- over an entry is the loop over the fields, on the slice of the data that ends at `entryEnd`
-- (Message/Kinds/Maps). `slab` offsets and indices are those of that slice.
--
-- Oneofs: Fixtures/OneofPayload has the discriminator as a field; what the decoder leaves in it
-- where no branch is sent is the subject of its child Kept. Message/PreScan is the scan that the
-- types with repeated messages run before the loop where a slice is nil, for one counter; the
-- slice it makes is empty, so the decoders are modelled without the call.
--
-- Not modelled: the rest of the plugin (in internal/core, and internal/lang/golang, cmd), which works on
-- descriptors of the protogen library and prints text; the test kit lang/go/codec/codectest.
-- Pointers of optional fields are not shared between messages. Allocation counts are not visible in the model.
pub mod Base
pub mod Runtime
pub mod Wire
pub mod Message
pub mod Core
pub mod Fixtures
pub mod Runs
