-- ===== src/Vault/Envelope.antt =====
-- crates/core/src/vault/envelope.rs: version (1) | item id (16) | updated_at, little-endian (8) |
-- nonce (24) | ciphertext, where the first 25 bytes are the associated data.
pub mod RoundTrip
use vpn_password_manager.Base.{
  ℕ, zero, suc, ◌+◌, ℤ, Text, text_eq, Bool, true, false, List, [], ◌∷◌, ◌++◌, Option, none, some,
  ◌≡◌, length, take, drop, ltb, ◌==◌, not, if◌then◌else◌,
}
use vpn_password_manager.Base.Bytes.{Bytes, i64_to_le, i64_from_le}
use vpn_password_manager.Error.{
  CoreError, Result, ok, err, format, serde, ◌>>=◌, ◌>>◌, require, ok_or,
}
use vpn_password_manager.Crypto
use vpn_password_manager.Crypto.{Primitives, vault_item}
use vpn_password_manager.Vault.Model.{Item}

abbrev pub item_version : ℕ
item_version = 0x01

-- What the code takes of `serde_json` for an item.
pub record ItemJson : Type 0 where
  pub to_vec : Item → Option Bytes
  pub from_slice : Bytes → Option Item

-- The 25 bytes before the nonce.
unfoldable pub header : Item → Bytes
header item = item_version ∷ (item.id ++ i64_to_le item.updated_at)

unfoldable pub envelope_meta : Bytes → Result CoreError (Bytes × ℤ)
envelope_meta b =
    if ltb (length b) 25
    then err (format "item envelope")
    else ok (take 16 (drop 1 b), i64_from_le (take 8 (drop 17 b)))

-- b[0], which a check of the length guards.
abbrev pub first_is : ℕ → Bytes → Bool
first_is v [] = false
first_is v (x ∷ xs) = x == v

module _ (c : Primitives) (json : ItemJson) where
  unfoldable pub item_key : Bytes → Bytes → Bytes
  item_key vk item_id = Crypto.hkdf32 c vk (some item_id) vault_item

  -- The nonce that `crypto::seal` draws is an argument.
  unfoldable pub seal_item : Bytes → Bytes → Item → Result CoreError Bytes
  seal_item nonce vk item = do
    plaintext ← ok_or (json.to_vec item) serde
    ok (header item ++ (nonce ++ Crypto.seal c (item_key vk item.id) (header item) nonce plaintext))

  unfoldable pub open_item : Bytes → Bytes → Result CoreError Item
  open_item vk b = do
    require (not (ltb (length b) (25 + 24 + 16))) (format "item envelope")
    require (first_is item_version b) (format "item envelope")
    let id_bytes = take 16 (drop 1 b)
    let nonce = take 24 (drop 25 b)
    pt ← Crypto.open_sealed c (item_key vk id_bytes) (take 25 b) nonce (drop 49 b)
    item ← ok_or (json.from_slice pt) serde
    require (text_eq item.id id_bytes) (format "item envelope")
    ok item
