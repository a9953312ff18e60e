-- ===== src/Dispatch.antt =====
-- internal/dispatch: task specs and their dispatch to the queue of an agent.
pub mod Types
pub mod Dispatcher
pub mod Samples
