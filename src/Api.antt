-- ===== src/Api.antt =====
-- services/api: the sync service.
pub mod Error
pub mod Vaults
pub mod Security
pub mod Sessions
pub mod Ratelimit
mod Tests
