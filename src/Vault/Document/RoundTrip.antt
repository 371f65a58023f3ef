-- ===== src/Vault/Document/RoundTrip.antt =====
-- A synced document is read back by a device that expects its version.
use vpn_password_manager.Base.{
  ℕ, text_eq, true, false, ◌++◌, some, ◌≡◌, refl, length, length-append, take, drop, take-append,
  drop-append, ltb, ge→ltb, arith, Option-cases, inl, inr,
}
use vpn_password_manager.Base.Bytes.{Bytes}
use vpn_password_manager.Error.{ok}
use vpn_password_manager.Crypto
use vpn_password_manager.Crypto.{Primitives, open_sealed-seal, length-seal}
use vpn_password_manager.Vault.Document.{
  VaultDocument, DocumentCodec, header, with_version, is_magic, outer_key, encode_sync_blob,
  decode_sync_blob,
}

module _ (c : Primitives) (codec : DocumentCodec) (nonce vk : Bytes) (doc : VaultDocument)
    (version : ℕ) where
  encode_sync_blob_inv :
      (blob : Bytes)
      → encode_sync_blob c codec nonce vk doc version ≡ ok blob
      → (json compressed : Bytes) × (codec.to_vec doc ≡ some json)
        × (codec.compress json ≡ some compressed)
        × (blob
            ≡ header version
              ++ (nonce
                  ++ Crypto.seal c
                      (outer_key c codec vk)
                      (with_version (header version) version)
                      nonce
                      compressed))
  unfolding encode_sync_blob
  encode_sync_blob_inv blob e = elim (Option-cases (codec.to_vec doc)) [
    | inl p ↦ absurd (ground (arith, e, p))
    | inr (json, p) ↦ elim (Option-cases (codec.compress json)) [
      | inl q ↦ absurd (ground (arith, e, p, q))
      | inr (z, q) ↦ (json, z, p, q, ground (arith, e, p, q))
    ]
  ]

  module _ (ct : Bytes) (n : length nonce ≡ 24) where
    abbrev whole : Bytes
    whole = header version ++ (nonce ++ ct)

    long : ltb (length whole) 32 ≡ false
    unfolding header
    long = ge→ltb _ 32 (omega (arith, length-append nonce ct, n))

    magic_field : is_magic whole ≡ true
    unfolding header text_eq
    magic_field = refl

    header_field : take 8 whole ≡ header version
    unfolding header
    header_field = refl

    nonce_field : take 24 (drop 8 whole) ≡ nonce
    unfolding header
    nonce_field = take-append nonce ct 24 n

    ct_field : drop 32 whole ≡ ct
    unfolding header
    ct_field = drop-append nonce ct 24 n

  -- If a document is encoded with a 24-byte nonce, its JSON text reads back to it, and the
  -- compressed text is decompressed to that text, then the blob decodes under the same key and
  -- the same version to the document.
  pub decode_sync_blob-encode_sync_blob :
      (blob : Bytes)
      → length nonce ≡ 24
      → ((json : Bytes) → codec.to_vec doc ≡ some json → codec.from_slice json ≡ some doc)
      → ((json z : Bytes) → codec.compress json ≡ some z → codec.decompress z ≡ some json)
      → encode_sync_blob c codec nonce vk doc version ≡ ok blob
      → decode_sync_blob c codec vk blob version ≡ ok doc
  unfolding decode_sync_blob
  decode_sync_blob-encode_sync_blob blob n back unpack e =
      let (json, z, p, q, same) = encode_sync_blob_inv blob e in
      let key = outer_key c codec vk in
      let aad = with_version (header version) version in
      let ct = Crypto.seal c key aad nonce z in
      rw same (
        simp (
          long ct n,
          magic_field ct n,
          header_field ct n,
          nonce_field ct n,
          ct_field ct n,
          open_sealed-seal c key aad nonce z,
          unpack json z q,
          back json p,
        ))
