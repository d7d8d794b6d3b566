-- ===== src/Wire.antt =====
-- The Go idioms that wkt.go and the generated methods share: writing at a cursor into a slice,
-- reading at an index, and the loop over the fields of a body.
pub mod Emit
pub mod Read
pub mod Loop
pub mod Slab
