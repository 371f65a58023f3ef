-- ===== src/Sync/Progress.antt =====
-- A push while the other devices are quiet and nothing is lost.
use vpn_password_manager.Base.{ℕ, suc, ◌+◌, true, [], some, ◌≡◌, ◌≢◌, arith}
use vpn_password_manager.Base.Bytes.{Bytes}
use vpn_password_manager.Error.{ok}
use vpn_password_manager.Crypto.{Primitives}
use vpn_password_manager.Vault.Document.{
  Base64, VaultDocument, DocumentCodec, encode_sync_blob, decode_sync_blob,
}
use vpn_password_manager.Vault.Store.{LocalVault, MergeReport, to_document, merge}
use vpn_password_manager.Api.Vaults.{
  Auth, VaultRow, Db, require_approved_device, vault_get, vault_put, vault_check, choose_write,
  vault_write, put_row, size_ok,
}
use vpn_password_manager.Api.Vaults.Versions.{row_at}
use vpn_password_manager.Sync.{
  World, accepted, conflict, put_result, take_turn, next_turn, get_result, get_vault, put_vault,
  merge_pulled, pull, push_attempts, push_document, try_push_vault,
}

abbrev pub quiet : Db → World
quiet db = record { db = db; turns = [] }

abbrev pub IsApproved : Db → Auth → Type 0
IsApproved db a = require_approved_device db a.device ≡ ok tt

module _ (b64 : Base64) (db : Db) (a : Auth) (row : VaultRow) (approved : IsApproved db a)
    (at : row_at a.account db ≡ some row) where
  get_vault-quiet : get_vault b64 a (quiet db) ≡ (quiet db, ok (some (row.version, row.ciphertext)))
  unfolding get_vault next_turn take_turn vault_get get_result
  get_vault-quiet = ground (arith, approved, at, b64.decode_encode row.ciphertext)

  module _ (blob : Bytes) (size : size_ok blob ≡ true) where
    put_vault_current :
        put_vault b64 a (quiet db) row.version blob
        ≡ (quiet (put_row db a (row.version + 1) blob), ok (accepted (row.version + 1)))
    unfolding put_vault next_turn take_turn vault_put vault_check choose_write vault_write
        put_result
    put_vault_current = ground (arith, approved, at, size, b64.decode_encode blob)

    put_vault_stale :
        (k : ℕ)
        → k ≢ row.version
        → put_vault b64 a (quiet db) k blob ≡ (quiet db, ok (conflict row.version))
    unfolding put_vault next_turn take_turn vault_put vault_check choose_write vault_write
        put_result
    put_vault_stale k other = ground (arith, approved, at, size, b64.decode_encode blob)

module _ (b64 : Base64) (a : Auth) (c : Primitives) (codec : DocumentCodec) (vk : Bytes)
    (nonce : ℕ → Bytes) where
  -- A vault that can be sealed for a version, and is not too large for the service.
  abbrev pub Sealed : LocalVault → ℕ → ℕ → Bytes → Type 0
  Sealed v left version blob =
      (encode_sync_blob c codec (nonce left) vk (to_document b64 v) version ≡ ok blob)
      × (size_ok blob ≡ true)

  push_attempts_current :
      (left : ℕ) (db : Db) (row : VaultRow) (v : LocalVault) (blob : Bytes)
      → IsApproved db a
      → row_at a.account db ≡ some row
      → Sealed v left (row.version + 1) blob
      → push_attempts b64 a c codec vk nonce (suc left) (quiet db) v row.version
        ≡ (quiet (put_row db a (row.version + 1) blob), (v, ok (row.version + 1)))
  unfolding push_attempts
  push_attempts_current left db row v blob approved at (encoded, size) =
      ground (arith, encoded, put_vault_current b64 db a row approved at blob size)

  pull-quiet :
      (db : Db) (row : VaultRow) (v : LocalVault) (remote : VaultDocument) (report : MergeReport)
      → IsApproved db a
      → row_at a.account db ≡ some row
      → decode_sync_blob c codec vk row.ciphertext row.version ≡ ok remote
      → (merge b64 v remote).1 ≡ ok report
      → pull b64 a c codec vk nonce (quiet db) v
        ≡ (quiet db, ((merge b64 v remote).0, ok (some row.version)))
  unfolding pull merge_pulled
  pull-quiet db row v remote report approved at decoded merged =
      ground (arith, get_vault-quiet b64 db a row approved at, decoded, merged)

  -- If a push names a version that is not the service's, while nothing is lost and the other
  -- devices are quiet, and the service's document decodes and merges, and the vault can be sealed
  -- before and after that, then the push succeeds: it leaves the document of the merged vault at
  -- the next version.
  pub push_document_retries :
      (db : Db) (row : VaultRow) (v : LocalVault) (stale : ℕ) (remote : VaultDocument)
      (report : MergeReport) (first second : Bytes)
      → IsApproved db a
      → row_at a.account db ≡ some row
      → stale ≢ row.version
      → decode_sync_blob c codec vk row.ciphertext row.version ≡ ok remote
      → (merge b64 v remote).1 ≡ ok report
      → Sealed v 1 (stale + 1) first
      → Sealed (merge b64 v remote).0 0 (row.version + 1) second
      → push_document b64 a c codec vk nonce (quiet db) v stale ≡ (
        quiet (put_row db a (row.version + 1) second),
        ((merge b64 v remote).0, ok (row.version + 1)),
      )
  unfolding push_document push_attempts
  push_document_retries db row v stale remote report first second approved at other decoded merged
        (encoded, size) sealed =
      let again = push_attempts_current 0 db row (merge b64 v remote).0 second approved at sealed in
      ground (
        arith,
        encoded,
        put_vault_stale b64 db a row approved at first size stale other,
        pull-quiet db row v remote report approved at decoded merged,
        again,
      )

  -- While nothing is lost and the other devices are quiet, the push after a sign-in puts the document
  -- of this device's vault, which can be sealed, in place of the one that the service holds, and
  -- the vault stays as it was: whatever the service's document is, it is not merged.
  pub try_push_vault_overwrites :
      (db : Db) (row : VaultRow) (v : LocalVault) (blob : Bytes)
      → IsApproved db a
      → row_at a.account db ≡ some row
      → Sealed v 1 (row.version + 1) blob
      → try_push_vault b64 a c codec vk nonce (quiet db) v
        ≡ (quiet (put_row db a (row.version + 1) blob), (v, some (row.version + 1)))
  unfolding try_push_vault push_document
  try_push_vault_overwrites db row v blob approved at sealed = ground (
    arith,
    get_vault-quiet b64 db a row approved at,
    push_attempts_current 1 db row v blob approved at sealed,
  )
