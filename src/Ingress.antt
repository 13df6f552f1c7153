-- ===== src/Ingress.antt =====
-- src/pr_sentinel/ingress.
pub mod Security
pub mod Routes
