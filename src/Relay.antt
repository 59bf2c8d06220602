-- ===== src/Relay.antt =====
-- The relay component of the platform server (server/src/relay/).
pub mod Gate
pub mod Text
pub mod Json
pub mod Observe
pub mod Probe
pub mod Settlement
mod Tests
