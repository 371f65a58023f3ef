-- ===== src/Cloud.antt =====
-- crates/core/src/cloud: the provider's data, and the watchdog.
pub mod Provider
pub mod Watchdog
mod Tests
