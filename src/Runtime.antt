-- ===== src/Runtime.antt =====
-- The Go runtime, lang/go/codec: wire primitives, well-known types and error sentinels.
pub mod Errors
pub mod Varint
pub mod Zigzag
pub mod Skip
pub mod Time
