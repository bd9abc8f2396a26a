-- ===== src/Mcp.antt =====
-- The crate `agentic-vision-mcp` (crates/agentic-vision-mcp/src): the server.
pub mod Types
pub mod Session
