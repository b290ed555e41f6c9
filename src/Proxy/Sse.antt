-- ===== src/Proxy/Sse.antt =====
-- src/handlers/proxy/sse.rs: the transforming event stream.
pub mod Boundary
pub mod Cursor
pub mod Event
pub mod Stream
pub mod Cases
pub mod Log
pub mod Held
pub mod Flow
pub mod Tests
