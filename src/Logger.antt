-- ===== src/Logger.antt =====
-- src/db/logger.rs and src/db/logger/writes.rs: the log worker over DuckDB.
pub mod Writes
pub mod Worker
pub mod Channel
pub mod Arrivals
pub mod Delivery
pub mod Signal
mod Tests
