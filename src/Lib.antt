-- ===== src/Lib.antt =====
-- A model of the core of Sentinel, a password manager with a built-in VPN (a Rust workspace), and
-- the theorems that make it correct.
--
-- The program and the files that model it; a definition has the name of the function it models,
-- as far as names allow:
-- - crates/core/src/error.rs, the errors: Error.
-- - crates/core/src/crypto, the calls of the ciphers: Crypto. The ciphers are an interface,
--   Primitives: decryption undoes encryption, and a ciphertext is 16 bytes longer.
-- - crates/core/src/keyring/mod.rs, the vault key wrapped under another key: Keyring.
-- - crates/core/src/vault: Vault. Model has the items (model.rs); Envelope seals an item under a
--   key derived from the vault key (envelope.rs); Store is the local database and its merge with
--   another device's document (store.rs); Document is that document and the blob that is synced
--   (document.rs); Session decides which items a page may be filled with (session.rs); its
--   Sites says what the code takes for a registrable domain.
-- - crates/core/src/cloud: Cloud. Provider has the instances (provider.rs), and the provider itself
--   as operations over a world; Watchdog decides which alerts a tick fires (watchdog.rs).
-- - crates/core/src/vpn: Vpn. Session connects and disconnects (session.rs), SplitTunnel chooses
--   the routes (the end of session.rs), Sweep removes forgotten instances (sweep.rs). Effects has
--   the monad that they run in: a world of any type, and a trace of what was created, deleted and
--   emitted.
-- - crates/core/src/wg/config.rs, the configuration files of the tunnel: Wg.
-- - crates/core/src/import: Import. Csv has the CSV files (csv.rs), Chrome the importer (chrome.rs).
-- - crates/core/src/generator/mod.rs, the password generator: Generator.
-- - crates/core/src/health/audit.rs, the audit of the passwords: Health.
-- - crates/core/src/nm, the messages between extension and desktop: Nm.
-- - crates/core/src/totp.rs, one-time passwords: Totp. Base32 has the secret's text, Secret the
--   codes and their check. A panic of the code is the result `none`.
-- - services/api/src, the sync service: Api. Ratelimit is the rate limiter (ratelimit.rs), Error the
--   errors (error.rs), Vaults the endpoints that read and replace an account's document (routes.rs),
--   with Serial for requests one after another and Race for two that interleave, Sessions the refresh
--   tokens (routes.rs), Security the record of failures and the bans (security.rs).
-- - apps/desktop/src-tauri/src/sync.rs, the device's side of the sync: Sync. It runs against
--   Api.Vaults in a world where other devices' requests come in between and messages are lost.
-- - apps/desktop/src-tauri/src/nmhost.rs, the process that answers the browser extension: NmHost.
--   Requests has the messages and helpers, Logins, Saving and Passkeys the handlers, Dispatch the
--   choice of the handler; Locked, Release, Saved, Scope and Payloads are about them.
-- Base has what they share: lists, association lists, bytes, text.
--
-- How code becomes a definition: `&mut` state is passed and returned, an error is a value of
-- `Result`, a loop is a recursion on the list that it runs over, a match on a call's result is an
-- `elim`, and a text is the list of its code points. A table or a hash map is an association list
-- in the order of insertion. Random draws and clock readings are arguments. What other crates do
-- (ciphers, JSON, base64, zstd, URLs, floating-point comparisons) is a record of functions, with a
-- law only where the code relies on one.
--
-- Bounds: the boot loop has `max_boot_polls` polls, as in the code. Decimal numbers are printed
-- with 20 digits of fuel, as many as a 64-bit number has. Widths of machine integers are written
-- out: the length fields of a frame and of a wrapped key, the little-endian times, the `u32` of
-- the watchdog's ticks, the shift registers of base32, the modulus of a code, the cast of a time
-- to `i64` where a code is checked. The push of a document has
-- two attempts, as in the code.
--
-- Not modelled: the user interfaces, HTTP, SQL errors, the operating system's services, the text of
-- error details and alerts, and the parts of the core that the files above do not name.
pub mod Base
pub mod Error
pub mod Crypto
pub mod Vault
pub mod Wg
pub mod Cloud
pub mod Vpn
pub mod Generator
pub mod Health
pub mod Totp
pub mod NmHost
pub mod Sync
pub mod Import
pub mod Api
pub mod Keyring
pub mod Nm
