-- ===== src/Agents.antt =====
-- src/pr_sentinel/agents: what is common to the specialists.
pub mod Grounding
