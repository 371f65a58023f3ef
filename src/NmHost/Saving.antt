-- ===== src/NmHost/Saving.antt =====
-- The handler that saves what the extension captured.
use vpn_password_manager.Base.{
  Text, codes, text_eq, Bool, true, false, ◌&&◌, List, [], ◌∷◌, Option, none, some, is_empty,
  if◌then◌else◌,
}
use vpn_password_manager.Base.Format.{trim}
use vpn_password_manager.Error.{ok, err}
use vpn_password_manager.Vault.Model.{
  Item, ItemType, UrlMode, Login, default_login, new_login, username, password,
}
use vpn_password_manager.Vault.Session.{origin_matches, seal}
use vpn_password_manager.Vault.Store.{upsert}
use vpn_password_manager.Nm.Protocol.{NmType, NmErrorCode, NmEnvelope, locked_reply}
use vpn_password_manager.NmHost.Requests.{
  SaveCandidateRequest, Reply, saved, Crates, Host, Draw, Answer, ok_reply, error_reply, host_of,
  load_items, bad_payload,
}

abbrev pub text_or_empty : Option Text → Text
text_or_empty none = []
text_or_empty (some t) = t

-- The first item that passes.
unfoldable pub find : (Item → Bool) → List Item → Option Item
find p [] = none
find p (it ∷ rest) = let later = find p rest in if p it then some it else later

module _ {Value : Type 0} (k : Crates Value) where
  abbrev pub is_same_login : SaveCandidateRequest → Item → Bool
  is_same_login req it =
      elim it.item_type [ ItemType.login ↦ true | _ ↦ false ]
      && origin_matches k.url_parse it.urls req.origin
      && text_eq (text_or_empty (username it)) req.username

  abbrev pub login_or_default : Option Login → Login
  login_or_default none = default_login
  login_or_default (some l) = l

  abbrev pub has_password : Item → Text → Bool
  has_password it p = elim (password it) [ none ↦ false | some q ↦ text_eq q p ]

  unfoldable pub updated_login : Draw → SaveCandidateRequest → Item → Item
  updated_login d req it = record it {
    login = some (record (login_or_default it.login) { password = some req.password });
    updated_at = d.now;
    password_changed_at = some d.now;
  }

  unfoldable pub created_login : Draw → SaveCandidateRequest → Item
  unfolding new_login
  created_login d req =
      let title = if is_empty (trim req.title) then host_of req.origin else req.title in
      let it = new_login d.id title d.now in
      record it {
        urls = record { url = req.origin; mode = UrlMode.domain } ∷ [];
        login = some (record (login_or_default it.login) {
          username = if is_empty req.username then none else some req.username;
          password = some req.password;
        });
      }

  -- From `host.session.seal` on.
  unfoldable pub store_item : Draw → Host → NmEnvelope Value → Item → Reply → NmType → Host × Answer
  store_item d host env item reply kind =
      elim (seal k.cipher k.item_json d.nonce host.session item) [
        | err e ↦ (host, error_reply env.id env.kind NmErrorCode.internal (codes "seal failed"))
        | ok sealed ↦ elim (upsert host.vault sealed) [
          | err e ↦
              (host, error_reply env.id env.kind NmErrorCode.internal (codes "vault write failed"))
          | ok vault ↦ (record host { vault = vault }, ok_reply env.id kind reply)
        ]
      ]

  unfoldable pub save_login : Draw → Host → NmEnvelope Value → SaveCandidateRequest → Host × Answer
  unfolding find updated_login created_login store_item
  save_login d host env req = elim (find (is_same_login req) (load_items k host)) [
    | none ↦
        let item = created_login d req in
        store_item d host env item (saved (codes "created") (k.uuid_text item.id))
          NmType.vault_save_candidate
    | some it ↦
        if has_password it req.password
        then (
          host,
          ok_reply env.id NmType.vault_save_candidate
              (saved (codes "unchanged") (k.uuid_text it.id)),
        )
        else let item = updated_login d req it in
          store_item d host env item (saved (codes "updated") (k.uuid_text item.id))
            NmType.vault_save_candidate
  ]

  unfoldable pub save_candidate : Draw → Option Host → NmEnvelope Value → Option Host × Answer
  unfolding save_login
  save_candidate d none env = (none, locked_reply env.id)
  save_candidate d (some host) env = elim (k.to_save env.payload) [
    | none ↦ (some host, bad_payload k env)
    | some req ↦
        if is_empty req.password
        then (
          some host,
          error_reply env.id env.kind NmErrorCode.bad_request (codes "no password to save"),
        )
        else let (after, answer) = save_login d host env req in (some after, answer)
  ]
