-- ===== src/Core.antt =====
-- internal/core: what the generator computes about a schema.
pub mod Tags
pub mod Options
