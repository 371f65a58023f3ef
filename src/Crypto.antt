-- ===== src/Crypto.antt =====
-- crates/core/src/crypto/mod.rs and kdf.rs. The ciphers themselves are crates: `Primitives` is
-- what the code relies on of XChaCha20-Poly1305 (RFC 8439 and its extended nonce) and HKDF-SHA256.
-- A key and a nonce are bytes; the random nonce of `seal` is an argument.
use vpn_password_manager.Base.{ℕ, ◌+◌, Text, codes, length, Option, some, ◌≡◌}
use vpn_password_manager.Base.Bytes.{Bytes}
use vpn_password_manager.Error.{CoreError, Result, ok, decrypt, ok_or}

pub record Primitives : Type 0 where
  -- key, associated data, nonce, message
  pub aead_encrypt : Bytes → Bytes → Bytes → Bytes → Bytes
  pub aead_decrypt : Bytes → Bytes → Bytes → Bytes → Option Bytes
  -- salt, input key, info, output length
  pub hkdf_expand : Option Bytes → Bytes → Bytes → ℕ → Bytes
  -- What was encrypted under a key, a nonce and associated data is decrypted under the same.
  pub decrypt_encrypt :
      (key aad nonce msg : Bytes)
      → aead_decrypt key aad nonce (aead_encrypt key aad nonce msg) ≡ some msg
  -- The tag adds 16 bytes.
  pub length_encrypt :
      (key aad nonce msg : Bytes) → length (aead_encrypt key aad nonce msg) ≡ length msg + 16

pub data Info : Type 0 where
  wrap_platform wrap_phone_share wrap_recovery vault_item vault_outer : Info
  pair_channel_desktop_to_phone pair_channel_phone_to_desktop : Info
  export file_transfer auth_login : Info

unfoldable pub as_str : Info → Text
as_str wrap_platform = codes "sentinel/v1/wrap/platform"
as_str wrap_phone_share = codes "sentinel/v1/wrap/phone-share"
as_str wrap_recovery = codes "sentinel/v1/wrap/recovery"
as_str vault_item = codes "sentinel/v1/vault/item"
as_str vault_outer = codes "sentinel/v1/vault/outer"
as_str pair_channel_desktop_to_phone = codes "sentinel/v1/pair/chan/desktop->phone"
as_str pair_channel_phone_to_desktop = codes "sentinel/v1/pair/chan/phone->desktop"
as_str export = codes "sentinel/v1/export"
as_str file_transfer = codes "sentinel/v1/file/blob"
as_str auth_login = codes "sentinel/v1/auth/login"

module _ (c : Primitives) where
  -- The ciphertext; `seal` of the source returns it behind the nonce that it drew.
  unfoldable pub seal : Bytes → Bytes → Bytes → Bytes → Bytes
  seal key aad nonce plaintext = c.aead_encrypt key aad nonce plaintext

  unfoldable pub open_sealed : Bytes → Bytes → Bytes → Bytes → Result CoreError Bytes
  open_sealed key aad nonce ciphertext = ok_or (c.aead_decrypt key aad nonce ciphertext) decrypt

  unfoldable pub hkdf32 : Bytes → Option Bytes → Info → Bytes
  hkdf32 ikm salt info = c.hkdf_expand salt ikm (as_str info) 32

  pub open_sealed-seal :
      (key aad nonce msg : Bytes) → open_sealed key aad nonce (seal key aad nonce msg) ≡ ok msg
  unfolding open_sealed seal
  open_sealed-seal key aad nonce msg = rw (c.decrypt_encrypt key aad nonce msg)

  pub length-seal : (key aad nonce msg : Bytes) → length (seal key aad nonce msg) ≡ length msg + 16
  unfolding seal
  length-seal key aad nonce msg = c.length_encrypt key aad nonce msg
