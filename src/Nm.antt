-- ===== src/Nm.antt =====
-- crates/core/src/nm: the messages between the browser extension and the desktop, and their frames.
pub mod Protocol
pub mod Framing
mod Tests
