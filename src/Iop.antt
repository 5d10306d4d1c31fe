-- ===== src/Iop.antt =====
-- The ingest pipeline (src/iop/).
pub mod Pipeline
pub mod Orchestrator
pub mod QuotaStep
