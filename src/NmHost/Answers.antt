-- ===== src/NmHost/Answers.antt =====
-- Which payload the answer of each handler has.
use vpn_password_manager.Base.{
  Text, List, [], ◌∷◌, Option, none, some, ◌≡◌, refl, arith, Option-cases, Bool-cases, inl, inr,
  ◌⊎◌, codes,
}
use vpn_password_manager.Error.{Result-cases}
use vpn_password_manager.Vault.Model.{Item}
use vpn_password_manager.Vault.Session.{seal}
use vpn_password_manager.Vault.Store.{upsert}
use vpn_password_manager.Nm.Protocol.{NmType, NmEnvelope, locked_reply}
use vpn_password_manager.NmHost.Requests.{
  SaveCandidateRequest, PasskeyRegisterReq, PasskeyAssertReq, Reply, greeting, found_items,
  found_fields, otp_code, generated, saved, registered, asserted, Crates, Host, Draw, Answer,
  ok_reply, error_reply, load_items,
}
use vpn_password_manager.NmHost.Logins.{search, fields, totp, generate}
use vpn_password_manager.NmHost.Saving.{
  store_item, save_login, save_candidate, created_login, updated_login, find, is_same_login,
  has_password,
}
use vpn_password_manager.NmHost.Passkeys.{
  passkey_item, rp_id_matches_origin, register_for, passkey_register, assert_with, candidates,
  passkey_assert,
}
use vpn_password_manager.NmHost.Dispatch.{hello}

-- The kind of request that a payload answers.
abbrev pub answers : Reply → NmType
answers (greeting caps version locked) = NmType.hello
answers (found_items its) = NmType.vault_search
answers (found_fields out) = NmType.vault_fields_get
answers (otp_code c) = NmType.vault_totp_get
answers (generated p) = NmType.vault_generate
answers (saved action id) = NmType.vault_save_candidate
answers (registered a b c) = NmType.vault_passkey_register
answers (asserted a b c e) = NmType.vault_passkey_assert

-- If there is a payload, it is one that answers this kind.
abbrev pub Fits : NmType → Option Reply → Type 0
Fits kind none = Unit
Fits kind (some r) = answers r ≡ kind

pub Fits-payload :
    (kind : NmType) (p : Option Reply) (r : Reply) → Fits kind p → p ≡ some r → answers r ≡ kind
Fits-payload kind none r f e = cc
Fits-payload kind (some q) r f e = ground (arith, f, e)

List-cases : (its : List Item) → (its ≡ []) ⊎ ((it : Item) × (rest : List Item) × (its ≡ it ∷ rest))
List-cases [] = inl refl
List-cases (it ∷ rest) = inr (it, rest, refl)

module _ {Value : Type 0} (k : Crates Value) (d : Draw) where
  store_item-Fits :
      (host : Host) (env : NmEnvelope Value) (item : Item) (reply : Reply) (kind : NmType)
      → Fits (answers reply) (store_item k d host env item reply kind).1.payload
  unfolding store_item ok_reply error_reply
  store_item-Fits host env item reply kind =
      elim (Result-cases (seal k.cipher k.item_json d.nonce host.session item)) [
        | inl (e, p) ↦ ground (arith, p)
        | inr (sealed, p) ↦ elim (Result-cases (upsert host.vault sealed)) [
          | inl (e, q) ↦ ground (arith, p, q)
          | inr (w, q) ↦ ground (arith, p, q)
        ]
      ]

  save_login-Fits :
      (host : Host) (env : NmEnvelope Value) (req : SaveCandidateRequest)
      → Fits NmType.vault_save_candidate (save_login k d host env req).1.payload
  unfolding save_login ok_reply
  save_login-Fits host env req =
      elim (Option-cases (find (is_same_login k req) (load_items k host))) [
        | inl p ↦
            let item = created_login k d req in
            ground (
              arith,
              p,
              store_item-Fits host env item (saved (codes "created") (k.uuid_text item.id))
                  NmType.vault_save_candidate,
            )
        | inr (it, p) ↦ elim (Bool-cases (has_password k it req.password)) [
          | inl q ↦ ground (arith, p, q)
          | inr q ↦
              let item = updated_login k d req it in
              ground (
                arith,
                p,
                q,
                store_item-Fits host env item (saved (codes "updated") (k.uuid_text item.id))
                    NmType.vault_save_candidate,
              )
        ]
      ]

  pub save_candidate-Fits :
      (host : Option Host) (env : NmEnvelope Value)
      → Fits NmType.vault_save_candidate (save_candidate k d host env).1.payload
  unfolding save_candidate locked_reply error_reply
  save_candidate-Fits none env = tt
  save_candidate-Fits (some host) env = elim (Option-cases (k.to_save env.payload)) [
    | inl p ↦ ground (arith, p)
    | inr (req, p) ↦ ground (arith, p, save_login-Fits host env req)
  ]

  register_for-Fits :
      (host : Host) (env : NmEnvelope Value) (req : PasskeyRegisterReq)
      → Fits NmType.vault_passkey_register (register_for k d host env req).1.payload
  unfolding register_for error_reply
  register_for-Fits host env req = elim (Option-cases (k.url_safe_decode req.user_handle_b64u)) [
    | inl p ↦ ground (arith, p)
    | inr (handle_bytes, p) ↦
        let pk =
          k.mint_passkey req.rp_id req.rp_name req.user_name req.user_display_name handle_bytes in
        elim (Option-cases (k.registration_attestation pk)) [
          | inl q ↦ ground (arith, p, q)
          | inr ((auth_data, attestation), q) ↦ ground (
            arith,
            p,
            q,
            store_item-Fits host env (passkey_item k d req pk)
                (registered pk.credential_id (k.url_safe_encode attestation)
                  (k.url_safe_encode auth_data))
                NmType.vault_passkey_register,
          )
        ]
  ]

  pub passkey_register-Fits :
      (host : Option Host) (env : NmEnvelope Value)
      → Fits NmType.vault_passkey_register (passkey_register k d host env).1.payload
  unfolding passkey_register locked_reply error_reply
  passkey_register-Fits none env = tt
  passkey_register-Fits (some host) env = elim (Option-cases (k.to_register env.payload)) [
    | inl p ↦ ground (arith, p)
    | inr (req, p) ↦ elim (Bool-cases (rp_id_matches_origin req.rp_id req.origin)) [
      | inl q ↦ ground (arith, p, q, register_for-Fits host env req)
      | inr q ↦ ground (arith, p, q)
    ]
  ]

  assert_with-Fits :
      (host : Host) (env : NmEnvelope Value) (req : PasskeyAssertReq) (item : Item)
      → Fits NmType.vault_passkey_assert (assert_with k d host env req item).1.payload
  unfolding assert_with error_reply ok_reply
  assert_with-Fits host env req item = ground arith

  pub passkey_assert-Fits :
      (host : Option Host) (env : NmEnvelope Value)
      → Fits NmType.vault_passkey_assert (passkey_assert k d host env).1.payload
  unfolding passkey_assert locked_reply error_reply
  passkey_assert-Fits none env = tt
  passkey_assert-Fits (some host) env = elim (Option-cases (k.to_assert env.payload)) [
    | inl p ↦ ground (arith, p)
    | inr (req, p) ↦ elim (Bool-cases (rp_id_matches_origin req.rp_id req.origin)) [
      | inl q ↦ elim (List-cases (candidates k host req)) [
        | inl r ↦ ground (arith, p, q, r)
        | inr (item, others, r) ↦ ground (arith, p, q, r, assert_with-Fits host env req item)
      ]
      | inr q ↦ ground (arith, p, q)
    ]
  ]

  pub search-Fits :
      (host : Option Host) (env : NmEnvelope Value)
      → Fits NmType.vault_search (search k host env).payload
  unfolding search locked_reply ok_reply error_reply
  search-Fits none env = tt
  search-Fits (some host) env = ground arith

  -- What a handler answers that may panic.
  abbrev pub FitsIfAny : NmType → Option Answer → Type 0
  FitsIfAny kind none = Unit
  FitsIfAny kind (some answer) = Fits kind answer.payload

  pub fields-Fits :
      (host : Option Host) (env : NmEnvelope Value)
      → FitsIfAny NmType.vault_fields_get (fields k d host env)
  unfolding fields locked_reply ok_reply error_reply
  fields-Fits none env = tt
  fields-Fits (some host) env = ground arith

  pub totp-Fits :
      (host : Option Host) (env : NmEnvelope Value)
      → FitsIfAny NmType.vault_totp_get (totp k d host env)
  unfolding totp locked_reply ok_reply error_reply
  totp-Fits none env = tt
  totp-Fits (some host) env = ground arith

  pub generate-Fits : (id : Text) → Fits NmType.vault_generate (generate k id).payload
  unfolding generate ok_reply error_reply
  generate-Fits id = ground arith

  pub hello-Fits : (host : Option Host) (id : Text) → Fits NmType.hello (hello k host id).payload
  unfolding hello ok_reply
  hello-Fits none id = refl
  hello-Fits (some host) id = refl
