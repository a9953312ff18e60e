-- ===== src/Branch.antt =====
-- internal/branch: the git branches of agent workers.
pub mod Naming
pub mod Retry
pub mod Worker
pub mod Samples
