-- ===== src/Broker.antt =====
-- `TelemetryBroker` of telemetry_broker.py: the cache of VPN sessions, and the events that it sends.
pub mod Text
pub mod Cache
pub mod Session
pub mod Sessions
pub mod Reconcile
pub mod Interfaces
pub mod Numbered
pub mod Bounded
pub mod Run
pub mod Accepted
pub mod Samples
mod Tests
