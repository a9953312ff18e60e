-- ===== src/ContextMgmt.antt =====
-- internal/contextmgmt: the use of a session's context window, and how a session is restored.
pub mod Tracker
