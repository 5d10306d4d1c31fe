-- ===== src/Codice.antt =====
-- The model registry's generated values: src/codice.
pub mod Sequence
