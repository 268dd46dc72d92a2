-- ===== src/Requests.antt =====
-- internal/requests/types.go: the durable requests of MCP hosts and their checks, and the
-- environment that the program runs in.
pub mod Types
pub mod Normalize
pub mod Environment
pub mod Normal
