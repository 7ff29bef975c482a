-- ===== src/Handlers.antt =====
-- Small request and key handlers of intTests.
pub mod AuthHeader
pub mod KeyBuffer
pub mod KeyStore
pub mod Requests
pub mod Secrets
mod Tests
