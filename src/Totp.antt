-- ===== src/Totp.antt =====
-- crates/core/src/totp.rs: one-time passwords (RFC 6238).
pub mod Base32
pub mod Secret
mod Tests
