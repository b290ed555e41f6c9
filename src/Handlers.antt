-- ===== src/Handlers.antt =====
-- src/handlers: the handlers of the console.
pub mod Input
pub mod Paging
pub mod Console
pub mod BaseUrl
pub mod Models
pub mod Providers
pub mod ApiKeys
pub mod Revoked
pub mod Coherent
mod Tests
