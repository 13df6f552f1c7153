-- ===== src/Retrieval.antt =====
-- src/pr_sentinel/retrieval.
pub mod Chunking
pub mod Context
