-- ===== src/Documents.antt =====
-- Documents: core/doktok_core/documents.
pub mod Document
pub mod Store
pub mod Filters
pub mod Listing
