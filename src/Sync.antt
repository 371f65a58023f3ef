-- ===== src/Sync.antt =====
-- apps/desktop/src-tauri/src/sync.rs: the device's side of the sync, against the service of
-- Api.Vaults. The world is the service's table and the turns to come: before each of the device's
-- requests, requests of any other devices run, and the request or its reply may be lost. Left out:
-- the access token and its refresh (`authed`), the encoding of the replies as JSON, and the
-- commands of the device itself that change the vault while a request is under way.
pub mod Answers
pub mod Based
pub mod Replaced
pub mod Progress
mod Tests
use vpn_password_manager.Base.{
  ℕ, zero, suc, ◌+◌, pos, Text, Bool, true, false, List, [], ◌∷◌, Option, none, some,
}
use vpn_password_manager.Base.Bytes.{Bytes}
use vpn_password_manager.Error.{CoreError, Result, ok, err, ok_or, format}
use vpn_password_manager.Crypto.{Primitives}
use vpn_password_manager.Vault.Document.{
  Base64, VaultDocument, DocumentCodec, encode_sync_blob, decode_sync_blob,
}
use vpn_password_manager.Vault.Store.{LocalVault, MergeReport, to_document, merge}
use vpn_password_manager.Api.Error.{ApiError, version_conflict, parts}
use vpn_password_manager.Api.Vaults.{Auth, Db, Request, vault_get, vault_put, handle_puts}

pub data Fate : Type 0 where
  delivered request_lost reply_lost : Fate

pub record Turn : Type 0 where
  pub others : List Request
  pub fate : Fate

pub record World : Type 0 where
  pub db : Db
  pub turns : List Turn

pub data SyncError : Type 0 where
  network not_base64 conflict_persisted : SyncError
  http : ℕ → SyncError
  core : CoreError → SyncError

pub data PutResult : Type 0 where
  accepted : ℕ → PutResult
  conflict : ℕ → PutResult

-- The answers to the service's status codes: 200, 204 and 409 are none of the errors below.
unfoldable pub put_result : Result ApiError ℕ → Result SyncError PutResult
put_result (ok v) = ok (accepted v)
put_result (err (version_conflict current)) = ok (conflict current)
put_result (err e) = err (http (parts e))

pub record SyncNowOut : Type 0 where
  pub pushed : Bool
  pub pulled : Bool
  pub version : ℕ

-- The version of a row, 0 if there is none.
abbrev pub version_or_0 : {A : Type 0} → Option (ℕ × A) → ℕ
version_or_0 none = 0
version_or_0 (some (version, ct)) = version

module _ (b64 : Base64) (a : Auth) where
  -- The table when the next request arrives, the fate of the request, and the turns after it.
  -- When the turns run out the other devices are quiet and all is delivered.
  unfoldable pub take_turn : Db → List Turn → Fate × World
  take_turn db [] = (delivered, record { db = db; turns = [] })
  take_turn db (t ∷ ts) = (t.fate, record { db = (handle_puts b64 t.others db).0; turns = ts })

  unfoldable pub next_turn : World → Fate × World
  unfolding take_turn
  next_turn w = take_turn w.db w.turns

  unfoldable pub get_result :
      Result ApiError (Option (ℕ × Text)) → Result SyncError (Option (ℕ × Bytes))
  get_result (err e) = err (http (parts e))
  get_result (ok none) = ok none
  get_result (ok (some (version, text))) = elim (b64.decode text) [
    | none ↦ err not_base64
    | some ct ↦ ok (some (version, ct))
  ]

  unfoldable pub get_vault : World → World × Result SyncError (Option (ℕ × Bytes))
  unfolding next_turn get_result
  get_vault w =
      let (fate, now) = next_turn w in
      elim fate [
        | delivered ↦ (now, get_result (vault_get b64 now.db a))
        | request_lost ↦ (now, err network)
        | reply_lost ↦ (now, err network)
      ]

  unfoldable pub put_vault : World → ℕ → Bytes → World × Result SyncError PutResult
  unfolding next_turn
  put_vault w if_match ciphertext =
      let (fate, now) = next_turn w in
      let (db, answer) = vault_put b64 now.db a (some (pos if_match)) (b64.encode ciphertext) in
      let after = record now { db = db } in
      elim fate [
        | delivered ↦ (after, put_result answer)
        | request_lost ↦ (now, err network)
        | reply_lost ↦ (after, err network)
      ]

  -- The key of the vault, and the nonces that the attempts draw.
  module _ (c : Primitives) (codec : DocumentCodec) (vk : Bytes) (nonce : ℕ → Bytes) where
    -- The document of the service is decoded and merged into the vault; its version. A merge
    -- that fails has changed the vault.
    unfoldable pub merge_pulled :
        LocalVault → Option (ℕ × Bytes) → LocalVault × Result SyncError (Option ℕ)
    merge_pulled v none = (v, ok none)
    merge_pulled v (some (version, ct)) = elim (decode_sync_blob c codec vk ct version) [
      | err e ↦ (v, err (core e))
      | ok remote ↦
          let (after, report) = merge b64 v remote in
          elim report [ err e ↦ (after, err (core e)) | ok r ↦ (after, ok (some version)) ]
    ]

    unfoldable pub pull : World → LocalVault → World × (LocalVault × Result SyncError (Option ℕ))
    unfolding merge_pulled get_vault
    pull w v =
        let (now, got) = get_vault w in
        elim got [ err e ↦ (now, (v, err e)) | ok row ↦ (now, merge_pulled v row) ]

    -- The loop of `push_document` with this many attempts left.
    unfoldable pub push_attempts :
        ℕ → World → LocalVault → ℕ → World × (LocalVault × Result SyncError ℕ)
    unfolding pull put_vault
    push_attempts zero w v current = (w, (v, err conflict_persisted))
    push_attempts (suc left) w v current =
        elim (encode_sync_blob c codec (nonce left) vk (to_document b64 v) (current + 1)) [
          | err e ↦ (w, (v, err (core e)))
          | ok blob ↦
              let (now, put) = put_vault w current blob in
              elim put [
                | err e ↦ (now, (v, err e))
                | ok (accepted version) ↦ (now, (v, ok version))
                | ok (conflict server_current) ↦
                    let (then, pulled) = pull now v in
                    elim pulled.1 [
                      | err e ↦ (then, (pulled.0, err e))
                      | ok none ↦ push_attempts left then pulled.0 server_current
                      | ok (some version) ↦ push_attempts left then pulled.0 version
                    ]
              ]
        ]

    unfoldable pub push_document :
        World → LocalVault → ℕ → World × (LocalVault × Result SyncError ℕ)
    push_document w v current = push_attempts 2 w v current

    -- Called after a sign-in. It asks for the version of the service's document and pushes over it.
    unfoldable pub try_push_vault : World → LocalVault → World × (LocalVault × Option ℕ)
    unfolding push_document get_vault
    try_push_vault w v =
        let (now, got) = get_vault w in
        elim got [
          | err e ↦ (now, (v, none))
          | ok row ↦
              let (then, pushed) = push_document now v (version_or_0 row) in
              elim pushed.1 [
                | err e ↦ (then, (pushed.0, none))
                | ok version ↦ (then, (pushed.0, some version))
              ]
        ]

    -- What follows the pull: `settings` is what `sync_device_settings` does to the vault, any
    -- function here.
    unfoldable pub push_settings :
        (LocalVault → LocalVault)
        → World
        → LocalVault
        → Bool
        → ℕ
        → World × (LocalVault × Result SyncError SyncNowOut)
    unfolding push_document
    push_settings settings w v pulled current =
        let (then, pushed) = push_document w (settings v) current in
        elim pushed.1 [
          | err e ↦ (then, (pushed.0, err e))
          | ok version ↦
              (then, (pushed.0, ok (record { pushed = true; pulled = pulled; version = version })))
        ]

    unfoldable pub sync_once :
        (LocalVault → LocalVault)
        → World
        → LocalVault
        → World × (LocalVault × Result SyncError SyncNowOut)
    unfolding pull push_settings
    sync_once settings w v =
        let (now, pulled) = pull w v in
        elim pulled.1 [
          | err e ↦ (now, (pulled.0, err e))
          | ok none ↦ push_settings settings now pulled.0 false 0
          | ok (some version) ↦ push_settings settings now pulled.0 true version
        ]
