-- ===== src/Forge.antt =====
-- src/pr_sentinel/forge.
pub mod Diff
pub mod Github
pub mod Prompt
