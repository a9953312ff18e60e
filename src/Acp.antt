-- ===== src/Acp.antt =====
-- internal/acp: the client of the agent's JSON-RPC connection.
pub mod Messages
pub mod Client
