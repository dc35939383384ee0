-- ===== src/Text.antt =====
-- How long texts are cut: core/doktok_core/aggregation/windowing.py and
-- core/doktok_core/indexing/chunker.py.
pub mod Windows
pub mod Chunker
