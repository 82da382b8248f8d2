-- ===== src/Auth.antt =====
-- `AuthMiddleware` of src/mcp_awareness/middleware.py: who a request comes from, and how many
-- requests of one owner run at a time.
pub mod Limiter
pub mod Identity
pub mod Admit
mod Tests
