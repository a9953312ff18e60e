-- ===== src/Operator.antt =====
-- operator: the Kubernetes controllers and the records of their API.
pub mod Types
pub mod Samples
pub mod Value
pub mod Environment
pub mod Resources
pub mod Workload
pub mod Cluster
pub mod Children
pub mod Scaling
pub mod AgentRuntime
pub mod ModelConfig
