-- ===== src/Janus.antt =====
-- What Janus adds to a query for the principal's boundaries: src/janus/abac_clauses.rs.
pub mod Abac
