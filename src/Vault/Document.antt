-- ===== src/Vault/Document.antt =====
-- crates/core/src/vault/document.rs: the vault as one sealed blob, bound to the server's version.
-- The base64, JSON and zstd crates are parameters, with what the code relies on of them.
pub mod RoundTrip
use vpn_password_manager.Base.{
  ℕ, ◌+◌, ℤ, Text, codes, text_eq, Bool, List, [], ◌∷◌, ◌++◌, Option, none, some, ◌≡◌, map, length,
  take, drop, ltb, not, ◌&&◌,
}
use vpn_password_manager.Base.Bytes.{Bytes, to_le}
use vpn_password_manager.Error.{
  CoreError, Result, ok, format, io, serde, ◌>>=◌, ◌>>◌, require, ok_or,
}
use vpn_password_manager.Crypto
use vpn_password_manager.Crypto.{Primitives, vault_outer}

pub record Base64 : Type 0 where
  pub encode : Bytes → Text
  pub decode : Text → Option Bytes
  pub decode_encode : (b : Bytes) → decode (encode b) ≡ some b

pub record VaultDocument : Type 0 where
  pub format : ℕ
  pub items : List Text
  pub tombstones : List (Bytes × ℤ)

pub record DocumentCodec : Type 0 where
  pub to_vec : VaultDocument → Option Bytes
  pub from_slice : Bytes → Option VaultDocument
  pub compress : Bytes → Option Bytes
  pub decompress : Bytes → Option Bytes

abbrev magic : Bytes
magic = codes "SVLT"

abbrev version_byte : ℕ
version_byte = 0x01

module _ (b64 : Base64) where
  unfoldable pub from_envelopes : List Bytes → List (Bytes × ℤ) → VaultDocument
  from_envelopes envs tombstones = record {
    format = 1;
    items = map b64.encode envs;
    tombstones = tombstones;
  }

  -- The first item that is not base64 ends the collection.
  unfoldable pub decode_items : List Text → Result CoreError (List Bytes)
  decode_items [] = ok []
  decode_items (s ∷ ss) = do
    e ← ok_or (b64.decode s) (format "vault document")
    es ← decode_items ss
    ok (e ∷ es)

  unfoldable pub envelopes : VaultDocument → Result CoreError (List Bytes)
  unfolding decode_items
  envelopes doc = decode_items doc.items

  pub envelopes-from_envelopes :
      (envs : List Bytes) (ts : List (Bytes × ℤ)) → envelopes (from_envelopes envs ts) ≡ ok envs
  unfolding envelopes from_envelopes
  envelopes-from_envelopes [] ts = unfold decode_items in λ i. ok []
  envelopes-from_envelopes (e ∷ envs) ts =
      rw (b64.decode_encode e) (rw (envelopes-from_envelopes envs ts))

-- The version is not part of the header on the wire.
unfoldable pub header : ℕ → Bytes
header version = magic ++ (version_byte ∷ 0 ∷ 0 ∷ 0 ∷ [])

-- The associated data: a header, then the version as a little-endian u64.
abbrev pub with_version : Bytes → ℕ → Bytes
with_version hdr version = hdr ++ to_le 8 version

abbrev is_magic : Bytes → Bool
is_magic b = text_eq (take 4 b) magic && text_eq (take 1 (drop 4 b)) (version_byte ∷ [])

module _ (c : Primitives) (codec : DocumentCodec) where
  unfoldable pub outer_key : Bytes → Bytes
  outer_key vk = Crypto.hkdf32 c vk none vault_outer

  -- The nonce that `crypto::seal` draws is an argument.
  unfoldable pub encode_sync_blob : Bytes → Bytes → VaultDocument → ℕ → Result CoreError Bytes
  encode_sync_blob nonce vk doc version = do
    json ← ok_or (codec.to_vec doc) serde
    compressed ← ok_or (codec.compress json) io
    let hdr = header version
    let ct = Crypto.seal c (outer_key vk) (with_version hdr version) nonce compressed
    ok (hdr ++ (nonce ++ ct))

  unfoldable pub decode_sync_blob : Bytes → Bytes → ℕ → Result CoreError VaultDocument
  decode_sync_blob vk bytes expected_version = do
    require (not (ltb (length bytes) (8 + 24))) (format "sync blob")
    require (is_magic bytes) (format "sync blob")
    let aad = with_version (take 8 bytes) expected_version
    pt ← Crypto.open_sealed c (outer_key vk) aad (take 24 (drop 8 bytes)) (drop 32 bytes)
    json ← ok_or (codec.decompress pt) io
    ok_or (codec.from_slice json) serde
