-- ===== src/Runs.antt =====
-- The theorems at concrete inputs, and runs of the definitions.
mod Runtime
mod Messages
mod Records
mod Core
mod Packed
mod Nested
mod Maps
mod Tree
mod Times
mod Options
mod Ends
