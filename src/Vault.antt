-- ===== src/Vault.antt =====
-- crates/core/src/vault: items, their sealed envelopes, the local store and its merge, the
-- document that is synced, and the matching of page origins.
pub mod Model
pub mod Envelope
pub mod Document
pub mod Store
pub mod Session
pub mod Samples
mod Tests
