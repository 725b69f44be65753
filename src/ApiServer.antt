-- ===== src/ApiServer.antt =====
-- The REST server in front of the attestation agent and the confidential data hub: api-server-rest.
pub mod Path
pub mod Clients
pub mod Router
pub mod Makes
pub mod Retry
pub mod Access
mod Tests
