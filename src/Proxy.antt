-- ===== src/Proxy.antt =====
-- src/handlers/proxy: the proxy pipeline.
pub mod Resolve
pub mod CachePolicy
pub mod Usage
pub mod Sse
pub mod Guard
pub mod Exec
pub mod Request
pub mod Finish
