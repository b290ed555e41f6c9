-- ===== src/Ssrf.antt =====
-- src/ssrf.rs: which addresses a request to a provider may reach.
pub mod Addr
pub mod Cidr
pub mod Prefix
pub mod Blocked
pub mod Check
pub mod CacheLaws
pub mod Pinned
mod Tests
