-- ===== src/NmHost/Release.antt =====
-- To which pages the host tells the fields and the one-time password of an item.
use vpn_password_manager.Base.{
  true, [], Option, none, some, ◌≡◌, ap, ◌∙◌, arith, Text, inl, inr, Option-cases, Bool-cases,
  codes,
}
use vpn_password_manager.Base.Assoc.{Assoc, lookup}
use vpn_password_manager.Error.{ok, Result-cases}
use vpn_password_manager.Vault.Model.{Item, username, password}
use vpn_password_manager.Vault.Session.{origin_matches}
use vpn_password_manager.Nm.Protocol.{NmType, NmEnvelope}
use vpn_password_manager.NmHost.Requests.{
  VaultFieldsGetRequest, TotpGetRequest, found_fields, otp_code, Crates, Host, Draw, Answer,
  ok_reply, error_reply, lookup_item, totp_code,
}
use vpn_password_manager.NmHost.Dispatch.{handle}
use vpn_password_manager.NmHost.Payloads.{handle_payload}
use vpn_password_manager.NmHost.Logins.{add_fields, fields, totp}
use vpn_password_manager.NmHost.Own.{nothing, add_fields-Own}

module _ {Value : Type 0} (k : Crates Value) (d : Draw) (host : Host) where
  -- The item of that id, and its URLs match the page's origin.
  pub record MayTell (id origin : Text) : Type 0 where
    pub item : Item
    pub found : lookup_item k host id ≡ ok item
    pub matches : origin_matches k.url_parse item.urls origin ≡ true

  -- The request named the item and an origin that the item matches; all that is told is its own.
  pub record FieldsTold (env : NmEnvelope Value) (out : Assoc Text) : Type 0 where
    pub req : VaultFieldsGetRequest
    pub asked : k.to_fields env.payload ≡ some req
    pub may : MayTell req.id req.origin
    pub told : add_fields k d.now may.item req.fields [] ≡ some out
    pub own_username :
        (u : Text) → lookup (codes "username") out ≡ some u → username may.item ≡ some u
    pub own_password :
        (p : Text) → lookup (codes "password") out ≡ some p → password may.item ≡ some p

  fields-FieldsTold :
      (env : NmEnvelope Value) (answer : Answer) (out : Assoc Text)
      → fields k d (some host) env ≡ some answer
      → answer.payload ≡ some (found_fields out)
      → FieldsTold env out
  unfolding fields error_reply ok_reply
  fields-FieldsTold env answer out e told = elim (Option-cases (k.to_fields env.payload)) [
    | inl p ↦ absurd (ground (arith, e, told, p))
    | inr (req, p) ↦ elim (Result-cases (lookup_item k host req.id)) [
      | inl (x, q) ↦ absurd (ground (arith, e, told, p, q))
      | inr (item, q) ↦ elim (Bool-cases (origin_matches k.url_parse item.urls req.origin)) [
        | inr r ↦ absurd (ground (arith, e, told, p, q, r))
        | inl r ↦ elim (Option-cases (add_fields k d.now item req.fields [])) [
          | inl s ↦ absurd (ground (arith, e, p, q, r, s))
          | inr (found, s) ↦
              let s_is : add_fields k d.now item req.fields [] ≡ some out =
                ground (arith, e, told, p, q, r, s) in
              record {
                req = req;
                asked = p;
                may = record { item = item; found = q; matches = r };
                told = s_is;
                own_username =
                    λ u. (add_fields-Own k d item req.fields [] out (nothing item) s_is).0 u;
                own_password =
                    λ w. (add_fields-Own k d item req.fields [] out (nothing item) s_is).1 w;
              }
        ]
      ]
    ]
  ]

  -- If an answer tells fields of an item, then the request named the item and an origin that the
  -- item matches, the user name and the password among them are the item's own, and the host stays
  -- as it was.
  pub handle_fields :
      (after : Option Host) (env : NmEnvelope Value) (answer : Answer) (out : Assoc Text)
      → handle k d (some host) env ≡ some (after, answer)
      → answer.payload ≡ some (found_fields out)
      → FieldsTold env out × (after ≡ some host)
  unfolding handle
  handle_fields after env answer out h p =
      let kind : NmType.vault_fields_get ≡ env.kind =
        handle_payload k d (some host) after env answer (found_fields out) h p in
      elim (Option-cases (fields k d (some host) env)) [
        | inl q ↦ absurd (ground (arith, h, kind, q))
        | inr (got, q) ↦
            let same : got ≡ answer = ground (arith, h, kind, q) in
            let stays : after ≡ some host = ground (arith, h, kind, q) in
            (fields-FieldsTold env answer out (q ∙ ap some same) p, stays)
      ]

  pub record CodeTold (env : NmEnvelope Value) (code : Text) : Type 0 where
    pub req : TotpGetRequest
    pub asked : k.to_totp env.payload ≡ some req
    pub may : MayTell req.id req.origin
    pub own : totp_code k d.now may.item ≡ some (some code)

  totp-CodeTold :
      (env : NmEnvelope Value) (answer : Answer) (code : Text)
      → totp k d (some host) env ≡ some answer
      → answer.payload ≡ some (otp_code code)
      → CodeTold env code
  unfolding totp error_reply ok_reply
  totp-CodeTold env answer code e told = elim (Option-cases (k.to_totp env.payload)) [
    | inl p ↦ absurd (ground (arith, e, told, p))
    | inr (req, p) ↦ elim (Result-cases (lookup_item k host req.id)) [
      | inl (x, q) ↦ absurd (ground (arith, e, told, p, q))
      | inr (item, q) ↦ elim (Bool-cases (origin_matches k.url_parse item.urls req.origin)) [
        | inr r ↦ absurd (ground (arith, e, told, p, q, r))
        | inl r ↦ elim (Option-cases (totp_code k d.now item)) [
          | inl s ↦ absurd (ground (arith, e, p, q, r, s))
          | inr (none, s) ↦ absurd (ground (arith, e, told, p, q, r, s))
          | inr (some c, s) ↦ record {
            req = req;
            asked = p;
            may = record { item = item; found = q; matches = r };
            own = ground (arith, e, told, p, q, r, s);
          }
        ]
      ]
    ]
  ]

  -- If an answer tells a one-time password, then the request named an item and an origin that the
  -- item matches, the password is the item's own at this time, and the host stays as it was.
  pub handle_code :
      (after : Option Host) (env : NmEnvelope Value) (answer : Answer) (code : Text)
      → handle k d (some host) env ≡ some (after, answer)
      → answer.payload ≡ some (otp_code code)
      → CodeTold env code × (after ≡ some host)
  unfolding handle
  handle_code after env answer code h p =
      let kind : NmType.vault_totp_get ≡ env.kind =
        handle_payload k d (some host) after env answer (otp_code code) h p in
      elim (Option-cases (totp k d (some host) env)) [
        | inl q ↦ absurd (ground (arith, h, kind, q))
        | inr (got, q) ↦
            let same : got ≡ answer = ground (arith, h, kind, q) in
            let stays : after ≡ some host = ground (arith, h, kind, q) in
            (totp-CodeTold env answer code (q ∙ ap some same) p, stays)
      ]
