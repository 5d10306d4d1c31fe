-- ===== src/Eav.antt =====
-- The entity-attribute-value model: src/eav/types.
pub mod Types
pub mod Encoding
