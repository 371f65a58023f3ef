-- ===== src/Vault/Samples.antt =====
-- A concrete cipher that only adds a tag, an item, its envelopes and a document, for the tests.
use vpn_password_manager.Base.{
  ℕ, ◌+◌, pos, codes, [], ◌∷◌, ◌++◌, some, ◌≡◌, refl, length, drop, arith,
}
use vpn_password_manager.Base.Bytes.{Bytes}
use vpn_password_manager.Crypto.{Primitives}
use vpn_password_manager.Vault.Model.{Item, new_login}
use vpn_password_manager.Vault.Session.{}
use vpn_password_manager.Vault.Envelope.{ItemJson}
use vpn_password_manager.Vault.Envelope.RoundTrip.{}
use vpn_password_manager.Vault.Document.{Base64, VaultDocument}
use vpn_password_manager.Vault.Store.{}
use vpn_password_manager.Vault.Store.Merge.{}
use vpn_password_manager.Vault.Store.Invariant.{}

abbrev pub tag : Bytes
tag = 0 ∷ 0 ∷ 0 ∷ 0 ∷ 0 ∷ 0 ∷ 0 ∷ 0 ∷ 0 ∷ 0 ∷ 0 ∷ 0 ∷ 0 ∷ 0 ∷ 0 ∷ 0 ∷ []

pub length-tag : (msg : Bytes) → length (tag ++ msg) ≡ length msg + 16
length-tag msg = omega arith

abbrev pub plain : Primitives
plain = record {
  aead_encrypt = λ key aad nonce msg. tag ++ msg;
  aead_decrypt = λ key aad nonce ct. some (drop 16 ct);
  hkdf_expand = λ salt ikm info n. ikm;
  decrypt_encrypt = λ key aad nonce msg. refl;
  length_encrypt = λ key aad nonce msg. length-tag msg;
}

abbrev pub same_text : Base64
same_text = record { encode = λ b. b; decode = λ t. some t; decode_encode = λ b. refl }

abbrev pub bank_id : Bytes
bank_id = 1 ∷ 2 ∷ 3 ∷ 4 ∷ 5 ∷ 6 ∷ 7 ∷ 8 ∷ 9 ∷ 10 ∷ 11 ∷ 12 ∷ 13 ∷ 14 ∷ 15 ∷ 16 ∷ []

unfoldable pub bank : Item
unfolding new_login
bank = new_login bank_id (codes "bank") (pos 500)

abbrev pub bank_json : ItemJson
bank_json = record { to_vec = λ it. some (7 ∷ 7 ∷ []); from_slice = λ b. some bank }

abbrev pub nonce : Bytes
nonce = tag ++ (1 ∷ 2 ∷ 3 ∷ 4 ∷ 5 ∷ 6 ∷ 7 ∷ 8 ∷ [])

abbrev pub vault_key : Bytes
vault_key = 42 ∷ []

-- An envelope of the item with this time.
abbrev pub env_at : ℕ → Bytes
env_at t =
    1 ∷ (bank_id ++ ((t ∷ 0 ∷ 0 ∷ 0 ∷ 0 ∷ 0 ∷ 0 ∷ 0 ∷ []) ++ (nonce ++ (tag ++ (7 ∷ 7 ∷ [])))))

abbrev pub their_document : VaultDocument
their_document = record { format = 1; items = env_at 5 ∷ []; tombstones = [] }
