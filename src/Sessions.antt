-- ===== src/Sessions.antt =====
-- src/mcp_awareness/session_registry.py: the registry of MCP sessions in Postgres and the ASGI
-- middleware in front of the MCP application.
pub mod Store
pub mod Messages
pub mod Middleware
pub mod Initialize
pub mod Subsequent
pub mod Dispatch
mod Tests
