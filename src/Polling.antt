-- ===== src/Polling.antt =====
-- `SocketIOPollingBridge` of telemetry_socketio_polling.py.
pub mod Bridge
pub mod Post
pub mod Poll
pub mod Capacity
pub mod Ownership
mod Tests
