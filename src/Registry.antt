-- ===== src/Registry.antt =====
-- internal/registry: the agents, and how a request finds one.
pub mod Types
pub mod Static
pub mod Dynamic
pub mod Samples
