-- ===== src/Middleware.antt =====
-- src/middleware.rs: the client address of a request, and authentication by API key.
pub mod ClientIp
pub mod Forwarded
pub mod Auth
pub mod Access
pub mod Race
mod Tests
