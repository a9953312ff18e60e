-- ===== src/Scheduler.antt =====
-- internal/scheduler
pub mod Dag
pub mod Types
pub mod Run
mod Samples
