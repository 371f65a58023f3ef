-- ===== src/Vpn.antt =====
-- crates/core/src/vpn: connecting, disconnecting, the orphan sweep and the routes of the tunnel.
pub mod Effects
pub mod Session
pub mod Sweep
pub mod SplitTunnel
mod Tests
