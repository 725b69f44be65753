-- ===== src/EventLog.antt =====
-- The runtime-measurement event log of the attestation agent:
-- attestation-agent/attestation-agent/src/eventlog.
pub mod Event
pub mod EventLaws
pub mod Outcomes
pub mod Files
pub mod States
pub mod WalLaws
pub mod Recovery
pub mod Start
pub mod Extend
pub mod Torn
pub mod Reach
pub mod Takes
pub mod Cost
pub mod Another
mod Tests
pub mod Tcg2
pub mod Machine
pub mod Journal
