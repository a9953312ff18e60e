-- ===== src/Proxy.antt =====
-- internal/proxy: the sidecar that takes a task from the queue, prompts the agent and publishes the
-- result.
pub mod Handler
pub mod Shutdown
pub mod Delivered
pub mod Samples
