-- ===== src/Sync/Tests.antt =====
-- The theorems on the sync at concrete tables and vaults.
use vpn_password_manager.Base.{
  ℕ, ◌+◌, pos, codes, false, true, List, [], ◌∷◌, ◌++◌, Option, none, some, ◌≡◌, ◌≢◌, refl, ap,
  arith,
}
use vpn_password_manager.Base.Bytes.{Bytes}
use vpn_password_manager.Error.{ok}
use vpn_password_manager.Vault.Document.{Base64, DocumentCodec, encode_sync_blob, decode_sync_blob}
use vpn_password_manager.Vault.Store.{LocalVault, MergeReport, empty_vault, to_document, merge}
use vpn_password_manager.Vault.Samples.{
  plain, tag, same_text, bank_id, nonce, vault_key, env_at, their_document,
}
use vpn_password_manager.Api.Vaults.{
  Auth, VaultRow, Db, Request, require_approved_device, put_row, size_ok,
}
use vpn_password_manager.Api.Vaults.Versions.{row_at}
use vpn_password_manager.Sync.{
  Fate, delivered, Turn, World, SyncNowOut, push_document, try_push_vault, sync_once,
}
use vpn_password_manager.Sync.Replaced.{Replaced, sync_once-Replaced}
use vpn_password_manager.Sync.Progress.{
  quiet, IsApproved, Sealed, push_document_retries, try_push_vault_overwrites,
}

-- Every text of a document is read as the document of the other device.
abbrev one_document : DocumentCodec
one_document = record {
  to_vec = λ doc. some (9 ∷ []);
  from_slice = λ b. some their_document;
  compress = λ b. some b;
  decompress = λ b. some b;
}

abbrev phone : Auth
phone = record { account = codes "me"; device = codes "phone" }

abbrev blob : Bytes
blob = codes "SVLT" ++ ((1 ∷ 0 ∷ 0 ∷ 0 ∷ []) ++ (nonce ++ (tag ++ (9 ∷ []))))

abbrev theirs : VaultRow
theirs = record { version = 3; ciphertext = blob; updated_by = codes "desktop" }

abbrev db : Db
db = record {
  devices = (codes "phone", codes "approved") ∷ (codes "desktop", codes "approved") ∷ [];
  vaults = (codes "me", theirs) ∷ [];
}

abbrev nonces : ℕ → Bytes
nonces n = nonce

approved : IsApproved db phone
unfolding require_approved_device vpn_password_manager.Base.Assoc.lookup
    vpn_password_manager.Base.text_eq
approved = refl

at_3 : row_at phone.account db ≡ some theirs
unfolding vpn_password_manager.Base.Assoc.lookup vpn_password_manager.Base.text_eq
at_3 = refl

sealed :
    (v : LocalVault) (left version : ℕ)
    → Sealed same_text phone plain one_document vault_key nonces v left version blob
unfolding encode_sync_blob vpn_password_manager.Vault.Document.header
    vpn_password_manager.Crypto.seal
sealed v left version = (refl, refl)

abbrev merged : LocalVault
merged = record {
  items = (bank_id, record { envelope = env_at 5; updated_at = pos 5 }) ∷ [];
  tombstones = [];
}

decoded : decode_sync_blob plain one_document vault_key blob 3 ≡ ok their_document
unfolding decode_sync_blob vpn_password_manager.Base.text_eq vpn_password_manager.Crypto.open_sealed
decoded = refl

abbrev report : MergeReport
report = record { added = 1; updated = 0; deleted = 0; conflicts = 0 }

merged_is : merge same_text empty_vault their_document ≡ (merged, ok report)
unfolding merge vpn_password_manager.Vault.Document.envelopes
    vpn_password_manager.Vault.Store.merge_items vpn_password_manager.Vault.Envelope.envelope_meta
    vpn_password_manager.Vault.Store.merge_tombstones vpn_password_manager.Vault.Store.merge_item
    vpn_password_manager.Base.Assoc.lookup vpn_password_manager.Base.Assoc.insert
    vpn_password_manager.Base.Assoc.remove vpn_password_manager.Base.Bytes.i64_from_le
    vpn_password_manager.Base.Bytes.i64_of_bits vpn_password_manager.Base.Bytes.from_le
merged_is = refl

merge_ok : (merge same_text empty_vault their_document).1 ≡ ok report
merge_ok = ap (λ x. x.1) merged_is

zero_not_3 : ◌≢◌ {A = ℕ} 0 3
zero_not_3 e = omega (arith, e)

push_document_retries_example :
    push_document same_text phone plain one_document vault_key nonces (quiet db) empty_vault 0
    ≡ (quiet (put_row db phone 4 blob), ((merge same_text empty_vault their_document).0, ok 4))
push_document_retries_example =
    push_document_retries same_text phone plain one_document vault_key nonces db theirs empty_vault
      0 their_document report blob blob approved at_3 zero_not_3 decoded merge_ok
      (sealed empty_vault 1 1) (sealed (merge same_text empty_vault their_document).0 0 4)

-- The empty vault of a new device replaces the document with an item in it.
try_push_vault_overwrites_example :
    try_push_vault same_text phone plain one_document vault_key nonces (quiet db) empty_vault
    ≡ (quiet (put_row db phone 4 blob), (empty_vault, some 4))
try_push_vault_overwrites_example =
    try_push_vault_overwrites same_text phone plain one_document vault_key nonces db theirs
      empty_vault blob approved at_3 (sealed empty_vault 1 4)

abbrev desktop_put : Request
desktop_put = record {
  auth = record { account = codes "me"; device = codes "desktop" };
  if_match = some (pos 3);
  ciphertext_b64 = blob;
}

-- The desktop puts version 4 between the pull and the push of the phone.
abbrev busy : World
busy = record {
  db = db;
  turns =
      record { others = []; fate = delivered }
      ∷ record { others = desktop_put ∷ []; fate = delivered }
      ∷ [];
}

abbrev same_settings : LocalVault → LocalVault
same_settings v = v

abbrev out : SyncNowOut
out = record { pushed = true; pulled = true; version = 5 }

abbrev last : World
last = record { db = put_row (put_row db desktop_put.auth 4 blob) phone 5 blob; turns = [] }

busy_synced :
    sync_once same_text phone plain one_document vault_key nonces same_settings busy empty_vault
    ≡ (last, (merged, ok out))
unfolding sync_once push_document vpn_password_manager.Api.Vaults.vault_get
    vpn_password_manager.Api.Vaults.handle_puts vpn_password_manager.Api.Vaults.handle_put
    vpn_password_manager.Api.Vaults.vault_put put_row vpn_password_manager.Base.Assoc.insert
    require_approved_device vpn_password_manager.Base.Assoc.lookup vpn_password_manager.Base.text_eq
    encode_sync_blob vpn_password_manager.Vault.Document.header vpn_password_manager.Crypto.seal
    decode_sync_blob vpn_password_manager.Crypto.open_sealed merge
    vpn_password_manager.Vault.Document.envelopes vpn_password_manager.Vault.Store.merge_items
    vpn_password_manager.Vault.Envelope.envelope_meta
    vpn_password_manager.Vault.Store.merge_tombstones vpn_password_manager.Vault.Store.merge_item
    vpn_password_manager.Base.Assoc.remove vpn_password_manager.Base.Bytes.i64_from_le
    vpn_password_manager.Base.Bytes.i64_of_bits vpn_password_manager.Base.Bytes.from_le
    vpn_password_manager.Sync.push_attempts vpn_password_manager.Sync.put_result
busy_synced = refl

sync_once-Replaced_example :
    Replaced same_text phone plain one_document vault_key nonces same_settings last.db merged 5
sync_once-Replaced_example =
    sync_once-Replaced same_text phone plain one_document vault_key nonces same_settings busy last
      empty_vault merged out busy_synced
