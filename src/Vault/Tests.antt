-- ===== src/Vault/Tests.antt =====
-- The theorems on envelopes, documents and page origins at concrete inputs.
use vpn_password_manager.Base.{
  ℕ, ◌+◌, ◌≤◌, ℤ, pos, codes, List, [], ◌∷◌, ◌++◌, Option, none, some, ◌≡◌, ◌≢◌, refl, sym, ap,
  subst, ◌⊎◌, In, Text, text_eq, true, if◌then◌else◌, ◌↔◌, inl, inr, length, drop, arith, All,
}
use vpn_password_manager.Base.Bytes.{Bytes, to_le, i64_bits, i64_to_le}
use vpn_password_manager.Error.{ok}
use vpn_password_manager.Crypto
use vpn_password_manager.Crypto.{Primitives, as_str}
use vpn_password_manager.Vault.Model.{UrlMatch, UrlMode}
use vpn_password_manager.Vault.Session.{
  ParsedUrl, Origin, registrable_domain, parse_origin, origin_matches, rank_matches,
}
use vpn_password_manager.Vault.Session.Origins.{IsMatch, origin_matches_iff}
use vpn_password_manager.Vault.Envelope.{header, seal_item, open_item}
use vpn_password_manager.Vault.Envelope.RoundTrip.{open_item-seal_item}
use vpn_password_manager.Vault.Document
use vpn_password_manager.Vault.Document.{
  Base64, VaultDocument, DocumentCodec, encode_sync_blob, decode_sync_blob,
}
use vpn_password_manager.Vault.Document.RoundTrip.{decode_sync_blob-encode_sync_blob}
use vpn_password_manager.Vault.Store.{}
use vpn_password_manager.Vault.Store.Merge.{}
use vpn_password_manager.Vault.Store.Invariant.{}
use vpn_password_manager.Vault.Samples.{
  tag, plain, bank_id, bank, bank_json, nonce, vault_key, their_document,
}

abbrev sealed : Bytes
sealed =
    1 ∷ (bank_id ++ ((244 ∷ 1 ∷ 0 ∷ 0 ∷ 0 ∷ 0 ∷ 0 ∷ 0 ∷ []) ++ (nonce ++ (tag ++ (7 ∷ 7 ∷ [])))))

bank-sealed : seal_item plain bank_json nonce vault_key bank ≡ ok sealed
unfolding seal_item header bank i64_to_le to_le i64_bits Crypto.seal
bank-sealed = refl

open_item-seal_item_example : open_item plain bank_json vault_key sealed ≡ ok bank
unfolding bank
open_item-seal_item_example =
    open_item-seal_item plain bank_json nonce vault_key bank sealed refl refl (λ pt h. refl)
      bank-sealed

bank_opens : open_item plain bank_json vault_key sealed ≡ ok bank
unfolding open_item Crypto.open_sealed vpn_password_manager.Base.text_eq bank
bank_opens = refl

-- A parser that knows two URLs.
abbrev url_parse : Text → Option ParsedUrl
url_parse t =
    if text_eq t (codes "https://a.example.com")
    then some
        (record { scheme = codes "https"; host_str = some (codes "A.example.com"); port = none })
    else if text_eq t (codes "https://b.example.com")
    then some
        (record { scheme = codes "https"; host_str = some (codes "b.example.com"); port = none })
    else none

abbrev saved_urls : List UrlMatch
saved_urls = record { url = codes "https://a.example.com"; mode = UrlMode.domain } ∷ []

page_matches : origin_matches url_parse saved_urls (codes "https://b.example.com") ≡ true
unfolding origin_matches parse_origin text_eq vpn_password_manager.Vault.Session.url_matches
    vpn_password_manager.Vault.Session.rules_allow vpn_password_manager.Vault.Session.hosts_match
    registrable_domain vpn_password_manager.Vault.Session.registrable_of
    vpn_password_manager.Vault.Session.split vpn_password_manager.Vault.Session.to_ascii_lowercase
    vpn_password_manager.Vault.Session.two_label_suffixes
page_matches = refl

origin_matches_iff_example :
    (origin_matches url_parse saved_urls (codes "https://b.example.com") ≡ true) ↔ (
      (page : Origin) × (parse_origin url_parse (codes "https://b.example.com") ≡ some page)
      × IsMatch url_parse saved_urls page)
origin_matches_iff_example = origin_matches_iff url_parse saved_urls (codes "https://b.example.com")

-- The sites of two users of a public suffix that the code's list lacks.
same_suffix : registrable_domain (codes "a.github.io") ≡ registrable_domain (codes "b.github.io")
unfolding registrable_domain vpn_password_manager.Vault.Session.registrable_of
    vpn_password_manager.Vault.Session.split vpn_password_manager.Vault.Session.two_label_suffixes
    text_eq
same_suffix = refl

-- Two addresses.
same_numbers : registrable_domain (codes "192.168.0.1") ≡ registrable_domain (codes "10.9.0.1")
unfolding registrable_domain vpn_password_manager.Vault.Session.registrable_of
    vpn_password_manager.Vault.Session.split vpn_password_manager.Vault.Session.two_label_suffixes
    text_eq
same_numbers = refl

acme : registrable_domain (codes "shop.acme.co.uk") ≡ codes "acme.co.uk"
unfolding registrable_domain vpn_password_manager.Vault.Session.registrable_of
    vpn_password_manager.Vault.Session.split vpn_password_manager.Vault.Session.two_label_suffixes
    text_eq
acme = refl

abbrev stored : DocumentCodec
stored = record {
  to_vec = λ doc. some (7 ∷ 7 ∷ []);
  from_slice = λ b. some their_document;
  compress = λ b. some b;
  decompress = λ b. some b;
}

abbrev blob : Bytes
blob = 83 ∷ 86 ∷ 76 ∷ 84 ∷ 1 ∷ 0 ∷ 0 ∷ 0 ∷ (nonce ++ (tag ++ (7 ∷ 7 ∷ [])))

document_encoded : encode_sync_blob plain stored nonce vault_key their_document 3 ≡ ok blob
unfolding encode_sync_blob Document.header Crypto.seal
document_encoded = refl

decode_sync_blob-encode_sync_blob_example :
    decode_sync_blob plain stored vault_key blob 3 ≡ ok their_document
decode_sync_blob-encode_sync_blob_example =
    decode_sync_blob-encode_sync_blob plain stored nonce vault_key their_document 3 blob refl
      (λ json h. refl) (λ json z h. sym h) document_encoded
