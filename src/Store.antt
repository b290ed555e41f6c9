-- ===== src/Store.antt =====
-- src/db/store.rs and src/db/store/: the SQLite tables and the operations on them.
pub mod Rows
pub mod Laws
pub mod Schema
pub mod Providers
pub mod Models
pub mod ApiKeys
pub mod Commands
pub mod Stored
pub mod Resolved
pub mod View
pub mod Readers
pub mod Trips
pub mod Updated
pub mod Tests
