-- ===== src/NmHost/Passkeys.antt =====
-- The handlers of passkeys: registration and assertion.
use vpn_password_manager.Base.{
  ◌+◌, ◌%◌, ◌^◌, Text, codes, text_eq, Bool, true, false, ◌&&◌, ◌||◌, not, List, [], ◌∷◌, ◌++◌,
  Option, none, some, any, is_empty, retain, length, drop, ltb, ◌-◌, if◌then◌else◌,
}
use vpn_password_manager.Error.{ok, err}
use vpn_password_manager.Vault.Model.{Item, ItemType, UrlMode, Passkey, new_login}
use vpn_password_manager.Vault.Session.{to_ascii_lowercase, sort_recent, seal}
use vpn_password_manager.Vault.Store.{upsert}
use vpn_password_manager.Nm.Protocol.{NmType, NmErrorCode, NmEnvelope, locked_reply}
use vpn_password_manager.NmHost.Requests.{
  PasskeyRegisterReq, PasskeyAssertReq, registered, asserted, Crates, Host, Draw, Answer, ok_reply,
  error_reply, first_part, split_scheme, load_items, bad_payload,
}
use vpn_password_manager.NmHost.Saving.{store_item}

abbrev pub ends_with : Text → Text → Bool
ends_with s t = not (ltb (length s) (length t)) && text_eq (drop (length s - length t) s) t

-- The host of the calling origin, as the gate reads it.
unfoldable pub gate_host : Text → Text
gate_host rest = to_ascii_lowercase (first_part b':' (first_part b'/' rest))

unfoldable pub is_local : Text → Bool
is_local host =
    text_eq host (codes "localhost")
    || text_eq host (codes "127.0.0.1")
    || ends_with host (codes ".localhost")

unfoldable pub scheme_ok : Text → Text → Bool
unfolding is_local
scheme_ok scheme host =
    text_eq (to_ascii_lowercase scheme) (codes "https")
    || (text_eq (to_ascii_lowercase scheme) (codes "http") && is_local host)

unfoldable pub rp_id_matches_origin : Text → Text → Bool
unfolding gate_host scheme_ok
rp_id_matches_origin rp_id origin = if is_empty rp_id then false else elim (split_scheme origin) [
  | none ↦ false
  | some (scheme, rest) ↦
      let host = gate_host rest in
      let rp = to_ascii_lowercase rp_id in
      if scheme_ok scheme host then text_eq host rp || ends_with host (b'.' ∷ rp) else false
]

module _ {Value : Type 0} (k : Crates Value) where
  abbrev pub wrong_rp_id : NmEnvelope Value → Answer
  wrong_rp_id env =
      error_reply env.id env.kind NmErrorCode.bad_origin (codes "rpId is not valid for this origin")

  unfoldable pub passkey_item : Draw → PasskeyRegisterReq → Passkey → Item
  unfolding new_login
  passkey_item d req pk =
      record (new_login d.id (req.user_name ++ (codes " @ " ++ req.rp_id)) d.now) {
        item_type = ItemType.passkey;
        login = none;
        password_changed_at = none;
        urls = record { url = req.origin; mode = UrlMode.domain } ∷ [];
        passkey = some pk;
      }

  -- Behind the gate.
  unfoldable pub register_for : Draw → Host → NmEnvelope Value → PasskeyRegisterReq → Host × Answer
  unfolding passkey_item
  register_for d host env req = elim (k.url_safe_decode req.user_handle_b64u) [
    | none ↦ (host, error_reply env.id env.kind NmErrorCode.bad_request (codes "bad user handle"))
    | some user_handle ↦
        let pk =
          k.mint_passkey req.rp_id req.rp_name req.user_name req.user_display_name user_handle in
        elim (k.registration_attestation pk) [
          | none ↦
              (host, error_reply env.id env.kind NmErrorCode.internal (codes "attestation failed"))
          | some (auth_data, attestation) ↦
              store_item k d host env (passkey_item d req pk)
                (registered pk.credential_id (k.url_safe_encode attestation)
                  (k.url_safe_encode auth_data))
                NmType.vault_passkey_register
        ]
  ]

  unfoldable pub passkey_register : Draw → Option Host → NmEnvelope Value → Option Host × Answer
  unfolding register_for
  passkey_register d none env = (none, locked_reply env.id)
  passkey_register d (some host) env = elim (k.to_register env.payload) [
    | none ↦ (some host, bad_payload k env)
    | some req ↦ elim (rp_id_matches_origin req.rp_id req.origin) [
      | false ↦ (some host, wrong_rp_id env)
      | true ↦ let (after, answer) = register_for d host env req in (some after, answer)
    ]
  ]

  abbrev pub allows : PasskeyAssertReq → Passkey → Bool
  allows req pk =
      text_eq pk.rp_id req.rp_id
      && (is_empty req.allow_credential_ids_b64u
          || any (λ id. text_eq id pk.credential_id) req.allow_credential_ids_b64u)

  abbrev pub is_candidate : PasskeyAssertReq → Item → Bool
  is_candidate req it =
      elim it.item_type [ ItemType.passkey ↦ true | _ ↦ false ]
      && elim it.passkey [ none ↦ false | some pk ↦ allows req pk ]

  -- The counter is kept if the item can be sealed and written.
  unfoldable pub keep_count : Draw → Host → Item → Host
  keep_count d host item = elim (seal k.cipher k.item_json d.nonce host.session item) [
    | err e ↦ host
    | ok sealed ↦ elim (upsert host.vault sealed) [
      | err e ↦ host
      | ok vault ↦ record host { vault = vault }
    ]
  ]

  abbrev pub counted : Passkey → Passkey
  counted pk = record pk { sign_count = (pk.sign_count + 1) % 2 ^ 32 }

  -- With the newest candidate. One without a passkey is no candidate.
  unfoldable pub assert_with :
      Draw → Host → NmEnvelope Value → PasskeyAssertReq → Item → Host × Answer
  unfolding keep_count
  assert_with d host env req item = elim item.passkey [
    | none ↦ (host, error_reply env.id env.kind NmErrorCode.internal (codes "assertion failed"))
    | some pk ↦ elim (k.assertion (counted pk) (counted pk).sign_count req.client_data_json) [
      | none ↦ (host, error_reply env.id env.kind NmErrorCode.internal (codes "assertion failed"))
      | some (auth_data, sig) ↦ (
        keep_count d host (record item { passkey = some (counted pk); updated_at = d.now }),
        ok_reply env.id NmType.vault_passkey_assert (
            asserted pk.credential_id (k.url_safe_encode auth_data) (k.url_safe_encode sig)
              pk.user_handle),
      )
    ]
  ]

  unfoldable pub candidates : Host → PasskeyAssertReq → List Item
  candidates host req = sort_recent k.url_parse (retain (is_candidate req) (load_items k host))

  unfoldable pub passkey_assert : Draw → Option Host → NmEnvelope Value → Option Host × Answer
  unfolding assert_with candidates
  passkey_assert d none env = (none, locked_reply env.id)
  passkey_assert d (some host) env = elim (k.to_assert env.payload) [
    | none ↦ (some host, bad_payload k env)
    | some req ↦ elim (rp_id_matches_origin req.rp_id req.origin) [
      | false ↦ (some host, wrong_rp_id env)
      | true ↦ elim (candidates host req) [
        | [] ↦ (
          some host,
          error_reply env.id env.kind NmErrorCode.not_found (codes "no passkey for this site"),
        )
        | item ∷ others ↦
            let (after, answer) = assert_with d host env req item in (some after, answer)
      ]
    ]
  ]
