-- ===== src/NmHost.antt =====
-- apps/desktop/src-tauri/src/nmhost.rs: the desktop process that answers the browser extension. The
-- payload of a request is a JSON value, a parameter, with `serde_json::from_value` for the records
-- of requests; the payload of an answer is the data that the code builds as JSON. The reading of
-- the clock, the nonce and the fresh id are arguments. The match quality is in hundredths, without
-- the rounding of f64. A code of a one-time password may panic: then the process gives no answer.
pub mod Requests
pub mod Logins
pub mod Saving
pub mod Passkeys
pub mod Dispatch
pub mod Locked
pub mod Scope
pub mod Answers
pub mod Payloads
pub mod Own
pub mod Release
pub mod Stored
pub mod Saved
mod Samples
mod Tests
