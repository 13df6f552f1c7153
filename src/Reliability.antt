-- ===== src/Reliability.antt =====
-- src/pr_sentinel/reliability: the circuit breaker, retries and the cost guard.
pub mod Circuit
pub mod Retry
pub mod Budget
