-- ===== src/Domain.antt =====
-- src/pr_sentinel/domain: the enumerations and the objects that travel between components.
pub mod Enums
pub mod Models
pub mod Samples
mod Examples
