-- ===== src/Orchestrator.antt =====
-- internal/orchestrator: fan-out of tasks and the collection of their results.
pub mod Types
pub mod Collector
pub mod FanOut
pub mod WaitForAll
pub mod Samples
