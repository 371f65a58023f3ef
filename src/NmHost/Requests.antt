-- ===== src/NmHost/Requests.antt =====
-- The records of requests and answers, and the helpers that the handlers share.
use Prim.Native.Nat.{max}
use vpn_password_manager.Base.{
  ℕ, ◌*◌, ◌-◌, ◌^◌, ℤ, pos, negsuc, Text, codes, text_eq, Bool, true, false, ◌&&◌, not, List, [],
  ◌∷◌, Option, none, some, any, map, take, drop, is_empty, if◌then◌else◌,
}
use vpn_password_manager.Base.Assoc.{Assoc}
use vpn_password_manager.Base.Bytes.{Bytes}
use vpn_password_manager.Error.{CoreError, Result, ok, err, ◌>>=◌, ok_or}
use vpn_password_manager.Crypto.{Primitives}
use vpn_password_manager.Vault.Model.{Item, UrlMatch, Passkey}
use vpn_password_manager.Vault.Envelope.{ItemJson}
use vpn_password_manager.Vault.Session.{
  VaultSession, ParsedUrl, to_ascii_lowercase, split, open_envelope,
}
use vpn_password_manager.Vault.Store.{LocalVault, get, list_envelopes}
use vpn_password_manager.Nm.Protocol.{NmType, NmErrorCode, NmEnvelope}
use vpn_password_manager.Generator.{Rng}
use vpn_password_manager.Totp.Secret.{Hmac, ParseUrl, parse, code_at}

pub record VaultSearchRequest : Type 0 where
  pub query : Text
  pub origin : Text

pub record VaultSearchResultItem : Type 0 where
  pub id : Text
  pub title : Text
  pub username : Option Text
  pub favicon_domain : Option Text
  pub match_quality : ℕ

pub record VaultFieldsGetRequest : Type 0 where
  pub id : Text
  pub fields : List Text
  pub origin : Text
  pub reason : Text

pub record TotpGetRequest : Type 0 where
  pub id : Text
  pub origin : Text

pub record SaveCandidateRequest : Type 0 where
  pub origin : Text
  pub username : Text
  pub password : Text
  pub title : Text

pub record PasskeyRegisterReq : Type 0 where
  pub origin : Text
  pub rp_id : Text
  pub rp_name : Option Text
  pub user_name : Text
  pub user_display_name : Option Text
  pub user_handle_b64u : Text

pub record PasskeyAssertReq : Type 0 where
  pub origin : Text
  pub rp_id : Text
  pub client_data_json : Text
  pub allow_credential_ids_b64u : List Text

-- What the handlers build with `json!`.
pub data Reply : Type 0 where
  greeting : List Text → Text → Bool → Reply
  found_items : List VaultSearchResultItem → Reply
  found_fields : Assoc Text → Reply
  otp_code : Text → Reply
  generated : Text → Reply
  saved : Text → Text → Reply
  -- The credential id, the attestation object and the authenticator data.
  registered : Text → Text → Text → Reply
  -- The credential id, the authenticator data, the signature and the user handle.
  asserted : Text → Text → Text → Text → Reply

-- What the host takes of the crates that it calls; of vault/passkey.rs, which wraps the
-- elliptic curve and CBOR crates, it takes the last three.
pub record Crates (Value : Type 0) : Type 0 where
  pub cipher : Primitives
  pub item_json : ItemJson
  pub url_parse : Text → Option ParsedUrl
  pub uuid_parse : Text → Option Bytes
  pub uuid_text : Bytes → Text
  pub to_lowercase : Text → Text
  pub otp_url : ParseUrl
  pub hmac : Hmac
  pub rng : Rng
  pub app_version : Text
  pub url_safe_encode : Bytes → Text
  pub url_safe_decode : Text → Option Bytes
  -- `serde_json::from_value`, of null where the payload is missing.
  pub to_search : Option Value → Option VaultSearchRequest
  pub to_fields : Option Value → Option VaultFieldsGetRequest
  pub to_totp : Option Value → Option TotpGetRequest
  pub to_save : Option Value → Option SaveCandidateRequest
  pub to_register : Option Value → Option PasskeyRegisterReq
  pub to_assert : Option Value → Option PasskeyAssertReq
  pub mint_passkey : Text → Option Text → Text → Option Text → Bytes → Passkey
  pub registration_attestation : Passkey → Option (Bytes × Bytes)
  pub assertion : Passkey → ℕ → Text → Option (Bytes × Bytes)

pub record Host : Type 0 where
  pub session : VaultSession
  pub vault : LocalVault

-- The clock, the nonce and the fresh id of one request.
pub record Draw : Type 0 where
  pub now : ℤ
  pub nonce : Bytes
  pub id : Bytes

abbrev pub Answer : Type 0
Answer = NmEnvelope Reply

unfoldable pub ok_reply : Text → NmType → Reply → Answer
ok_reply id kind payload = record {
  id = id;
  kind = kind;
  is_ok = some true;
  payload = some payload;
  error = none;
}

unfoldable pub error_reply : Text → NmType → NmErrorCode → Text → Answer
error_reply id kind code message = record {
  id = id;
  kind = kind;
  is_ok = some false;
  payload = none;
  error = some (record { code = code; message = message });
}

-- `as u64` of a time.
abbrev pub as_u64 : ℤ → ℕ
as_u64 (pos n) = n
as_u64 (negsuc n) = 2 ^ 64 - 1 - n

-- `split(c).next()`, which is always there.
abbrev pub first_part : ℕ → Text → Text
first_part c s = elim (split c s) [ [] ↦ s | p ∷ ps ↦ p ]

abbrev behind : ℕ → Option (Text × Text) → Option (Text × Text)
behind c none = none
behind c (some (a, b)) = some (c ∷ a, b)

-- `split_once("://")`.
unfoldable pub split_scheme : Text → Option (Text × Text)
split_scheme [] = none
split_scheme (c ∷ s) =
    let later = behind c (split_scheme s) in
    if text_eq (take 3 (c ∷ s)) (codes "://") then some ([], drop 3 (c ∷ s)) else later

abbrev behind_scheme : Option (Text × Text) → Text → Text
behind_scheme none url = url
behind_scheme (some (scheme, rest)) url = rest

unfoldable pub host_of : Text → Text
host_of url =
    let after = behind_scheme (split_scheme url) url in to_ascii_lowercase (first_part b'/' after)

unfoldable pub match_quality : Item → Text → ℕ → ℕ
unfolding host_of
match_quality item origin rank =
    let page_host = host_of origin in
    let exact =
      any (λ (u : UrlMatch). text_eq (host_of u.url) page_host && not (is_empty page_host))
        item.urls in
    max ((if exact then 100 else 75) - 2 * rank) 10

unfoldable pub filter_ok : List (Result CoreError Item) → List Item
filter_ok [] = []
filter_ok (err e ∷ rest) = filter_ok rest
filter_ok (ok it ∷ rest) = it ∷ filter_ok rest

module _ {Value : Type 0} (k : Crates Value) where
  unfoldable pub load_items : Host → List Item
  unfolding filter_ok
  load_items host =
      filter_ok (map (open_envelope k.cipher k.item_json host.session) (list_envelopes host.vault))

  unfoldable pub lookup_item : Host → Text → Result (NmErrorCode × Text) Item
  lookup_item host id = do
    uid ← ok_or (k.uuid_parse id) (NmErrorCode.bad_request, codes "bad item id")
    env ← ok_or (get host.vault uid) (NmErrorCode.not_found, codes "no such item")
    elim (open_envelope k.cipher k.item_json host.session env) [
      | err e ↦ err (NmErrorCode.internal, codes "decrypt failed")
      | ok it ↦ ok it
    ]

  -- None inside if there is no code, none outside if it panics.
  unfoldable pub totp_code : ℤ → Item → Option (Option Text)
  totp_code now item = elim item.login [
    | none ↦ some none
    | some l ↦ elim l.totp [
      | none ↦ some none
      | some uri ↦ elim (parse k.otp_url uri) [
        | err e ↦ some none
        | ok secret ↦ elim (code_at k.hmac secret (as_u64 now)) [
          | none ↦ none
          | some c ↦ some (some c)
        ]
      ]
    ]
  ]

  abbrev pub bad_payload : NmEnvelope Value → Answer
  bad_payload env =
      error_reply env.id env.kind NmErrorCode.bad_request (codes "bad request payload")
