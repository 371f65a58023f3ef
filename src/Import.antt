-- ===== src/Import.antt =====
-- crates/core/src/import: the CSV files of other password managers.
pub mod Csv
pub mod Chrome
mod Tests
