-- ===== src/ResourceUri.antt =====
-- The names of confidential resources: attestation-agent/deps/resource_uri/src/lib.rs.
pub mod Uri
pub mod RoundTrip
mod Tests
