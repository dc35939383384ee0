-- ===== src/Features.antt =====
-- The feature ledger and the reconciler that drives it: core/doktok_core/features.
pub mod Row
pub mod Keys
pub mod Ledger
pub mod Queries
pub mod Claim
pub mod Calls
pub mod Workers
pub mod Reconciler
