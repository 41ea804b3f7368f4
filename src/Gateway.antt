-- ===== src/Gateway.antt =====
-- telemetry_gateway.py: the boundary that live telemetry crosses on its way to a browser.
pub mod Value
pub mod Error
pub mod Limits
pub mod Bounded
pub mod Frame
pub mod Principal
pub mod Queue
pub mod Poll
mod Tests
