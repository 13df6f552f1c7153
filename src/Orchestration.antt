-- ===== src/Orchestration.antt =====
-- src/pr_sentinel/orchestration.
pub mod Titles
pub mod Clusters
pub mod Repeated
pub mod Aggregator
pub mod Panel
pub mod Pipeline
mod Examples
