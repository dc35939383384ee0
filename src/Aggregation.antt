-- ===== src/Aggregation.antt =====
-- core/doktok_core/aggregation: the sums over extracted records.
pub mod Group
pub mod Records
pub mod Rows
pub mod Rollups
mod Examples
