-- ===== src/Mbf/Wire.antt =====
-- The binary form of items and snapshots: src/mbf/storage.rs. What a `write_` function appends to the
-- buffer is its value here; the rest of the slice from `*offset` on is a `read_` function's argument,
-- and what is left of it stands beside the value read.
pub mod Bytes
pub mod Attribute
pub mod ItemMap
pub mod Block
pub mod Snapshot
