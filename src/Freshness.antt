-- ===== src/Freshness.antt =====
-- `TelemetryRuntimeState` of telemetry_state.py.
pub mod State
pub mod History
mod Tests
