-- ===== src/Evaluation.antt =====
-- src/pr_sentinel/evaluation.
pub mod Labels
pub mod Matching
pub mod Metrics
pub mod Calibration
mod Examples
