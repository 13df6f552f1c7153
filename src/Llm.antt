-- ===== src/Llm.antt =====
-- src/pr_sentinel/llm: what a call may cost.
pub mod Pricing
