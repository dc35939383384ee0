-- ===== src/Ingestion.antt =====
-- The ingestion of a file: core/doktok_core/ingestion.
pub mod Files
pub mod Services
pub mod Outcomes
pub mod Artifacts
pub mod Activation
pub mod Pipeline
pub mod Recovery
pub mod ExtractStage
pub mod Interrupted
mod Examples
