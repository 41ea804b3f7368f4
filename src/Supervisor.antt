-- ===== src/Supervisor.antt =====
-- `TelemetrySupervisor` of telemetry_supervisor.py, over the model of the broker.
pub mod Attempt
pub mod Retry
pub mod Delivered
pub mod Backoff
pub mod Outage
pub mod Sampler
mod Tests
