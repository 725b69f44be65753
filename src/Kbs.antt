-- ===== src/Kbs.antt =====
-- The client of the key broker service: attestation-agent/kbs_protocol/src.
pub mod Token
pub mod Client
pub mod Rcar
pub mod Bearer
pub mod Resources
pub mod Evidence
pub mod Attested
pub mod Requests
pub mod Bounds
mod Tests
