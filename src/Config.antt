-- ===== src/Config.antt =====
-- src/config.rs: trusted proxies, and the checks that a configuration passes at startup.
pub mod Proxies
pub mod Startup
pub mod Accepted
mod Tests
