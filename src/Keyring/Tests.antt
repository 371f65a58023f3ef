-- ===== src/Keyring/Tests.antt =====
-- The theorems on wrapped keys at a blob with two bytes of parameters, with a cipher that only adds
-- a tag.
use vpn_password_manager.Base.{
  ℕ, ◌+◌, ◌<◌, Bool, false, any, leb, All, List, [], ◌∷◌, ◌++◌, some, ◌≡◌, refl, arith, length,
  drop,
}
use vpn_password_manager.Base.Bytes.{Bytes}
use vpn_password_manager.Error.{ok}
use vpn_password_manager.Crypto.{Primitives}
use vpn_password_manager.Keyring.{WrapperType, WrappedBlob, parse, params, seal, open_blob}
use vpn_password_manager.Keyring.RoundTrip.{open_blob-seal}
use vpn_password_manager.Keyring.Canonical.{IsEncoding, parse-IsEncoding}

abbrev eight : Bytes
eight = 1 ∷ 2 ∷ 3 ∷ 4 ∷ 5 ∷ 6 ∷ 7 ∷ 8 ∷ []

abbrev tag : Bytes
tag = eight ++ eight

length-tag : (msg : Bytes) → length (tag ++ msg) ≡ length msg + 16
length-tag msg = omega arith

abbrev tagging : Primitives
tagging = record {
  aead_encrypt = λ key aad nonce msg. tag ++ msg;
  aead_decrypt = λ key aad nonce ct. some (drop 16 ct);
  hkdf_expand = λ salt ikm info n. ikm;
  decrypt_encrypt = λ key aad nonce msg. refl;
  length_encrypt = λ key aad nonce msg. length-tag msg;
}

abbrev nonce : Bytes
nonce = tag ++ eight

abbrev vault_key : Bytes
vault_key = tag ++ tag

abbrev salt : Bytes
salt = 77 ∷ 78 ∷ []

open_blob-seal_example :
    (open_blob tagging (seal tagging nonce WrapperType.password eight salt vault_key) eight
      ≡ ok vault_key)
    × (params (seal tagging nonce WrapperType.password eight salt vault_key) ≡ ok salt)
open_blob-seal_example =
    open_blob-seal tagging nonce eight salt vault_key WrapperType.password (omega arith) refl refl

abbrev blob : WrappedBlob
blob = record {
  wrapper = WrapperType.password;
  bytes = 83 ∷ 78 ∷ 84 ∷ 76 ∷ 1 ∷ 4 ∷ 2 ∷ 0 ∷ 77 ∷ 78 ∷ (nonce ++ (tag ++ vault_key));
}

small : (b : Bytes) → any (λ x. leb 256 x) b ≡ false → All (λ x. x < 256) b
small [] h = tt
small (x ∷ b) h = (ground (arith, h), small b (ground (arith, h)))

blob_parsed : parse blob ≡ ok (salt, nonce, tag ++ vault_key)
unfolding parse vpn_password_manager.Base.text_eq vpn_password_manager.Keyring.from_code
    vpn_password_manager.Keyring.same_wrapper vpn_password_manager.Base.Bytes.from_le
blob_parsed = refl

parse-IsEncoding_example : IsEncoding WrapperType.password salt nonce (tag ++ vault_key) blob.bytes
parse-IsEncoding_example =
    parse-IsEncoding blob salt nonce (tag ++ vault_key) (small blob.bytes refl) blob_parsed
