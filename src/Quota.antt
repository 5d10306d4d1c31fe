-- ===== src/Quota.antt =====
-- The quota subsystem (src/quota/, and the `quota_*` operations of src/mbf/storage.rs).
pub mod Counter
pub mod Ledger
pub mod Reservations
pub mod Sweeper
pub mod Resolver
