-- ===== src/Health.antt =====
-- crates/core/src/health: the audit of the passwords.
pub mod Audit
mod Tests
