-- ===== src/Mbf.antt =====
-- The write path of the storage engine on an object store: src/mbf.
pub mod Store
pub mod Signature
pub mod Coordinator
pub mod Wire
pub mod Ledger
pub mod Format
pub mod Seal
pub mod HotHead
