-- ===== src/NmHost/Saved.antt =====
-- A login that is saved, and then asked for by its page.
use vpn_password_manager.Base.{
  true, false, [], ◌∷◌, none, some, ◌≡◌, refl, arith, Text, codes, text_eq, is_empty, length,
}
use vpn_password_manager.Base.Assoc.{insert}
use vpn_password_manager.Base.Bytes.{Bytes, InI64}
use vpn_password_manager.Error.{ok}
use vpn_password_manager.Vault.Model.{Item, new_login, password}
use vpn_password_manager.Vault.Session.{
  Origin, key, seal, open_envelope, parse_origin, origin_matches,
}
use vpn_password_manager.Vault.Store.{LocalVault, upsert, get}
use vpn_password_manager.Nm.Protocol.{NmType, NmEnvelope}
use vpn_password_manager.NmHost.Requests.{
  SaveCandidateRequest, VaultFieldsGetRequest, Reply, Answer, found_fields, saved, Crates, Host,
  Draw, ok_reply, load_items, lookup_item,
}
use vpn_password_manager.NmHost.Logins.{add_field, add_fields, fields}
use vpn_password_manager.NmHost.Saving.{
  created_login, find, is_same_login, store_item, save_login, save_candidate,
}
use vpn_password_manager.NmHost.Dispatch.{handle}
use vpn_password_manager.NmHost.Stored.{origin_matches_self, stored}

-- The page asks for the password of the item with this id.
abbrev pub password_of : Text → Text → Text → VaultFieldsGetRequest
password_of id origin reason = record {
  id = id;
  fields = codes "password" ∷ [];
  origin = origin;
  reason = reason;
}

module _ {Value : Type 0} (k : Crates Value) (d : Draw) (host : Host) (env : NmEnvelope Value) where
  store_item_ok :
      (item : Item) (sealed : Bytes) (vault : LocalVault) (reply : Reply) (kind : NmType)
      → seal k.cipher k.item_json d.nonce host.session item ≡ ok sealed
      → upsert host.vault sealed ≡ ok vault
      → store_item k d host env item reply kind
        ≡ (record host { vault = vault }, ok_reply env.id kind reply)
  unfolding store_item
  store_item_ok item sealed vault reply kind p q = ground (arith, p, q)

  save_login_new :
      (req : SaveCandidateRequest) (after : Host) (answer : Answer)
      → find (is_same_login k req) (load_items k host) ≡ none
      → store_item k d host env
          (created_login k d req)
          (saved (codes "created") (k.uuid_text (created_login k d req).id))
          NmType.vault_save_candidate
        ≡ (after, answer)
      → save_login k d host env req ≡ (after, answer)
  unfolding save_login
  save_login_new req after answer p q = ground (arith, p, q)

  handle_save :
      (req : SaveCandidateRequest) (after : Host) (answer : Answer)
      → env.kind ≡ NmType.vault_save_candidate
      → k.to_save env.payload ≡ some req
      → is_empty req.password ≡ false
      → save_login k d host env req ≡ (after, answer)
      → handle k d (some host) env ≡ some (some after, answer)
  unfolding handle save_candidate
  handle_save req after answer p q r s = ground (arith, p, q, r, s)

  lookup_item_ok :
      (id : Text) (uid sealed : Bytes) (item : Item)
      → k.uuid_parse id ≡ some uid
      → get host.vault uid ≡ some sealed
      → open_envelope k.cipher k.item_json host.session sealed ≡ ok item
      → lookup_item k host id ≡ ok item
  unfolding lookup_item
  lookup_item_ok id uid sealed item p q r = ground (arith, p, q, r)

  only_password :
      (item : Item) (w : Text)
      → password item ≡ some w
      → add_fields k d.now item (codes "password" ∷ []) [] ≡ some ((codes "password", w) ∷ [])
  unfolding add_fields add_field text_eq insert
  only_password item w t = rw (t, add_fields, add_field) refl

  fields_password :
      (req : VaultFieldsGetRequest) (item : Item) (w : Text)
      → k.to_fields env.payload ≡ some req
      → lookup_item k host req.id ≡ ok item
      → origin_matches k.url_parse item.urls req.origin ≡ true
      → req.fields ≡ codes "password" ∷ []
      → password item ≡ some w
      → fields k d (some host) env
        ≡ some (ok_reply env.id NmType.vault_fields_get (found_fields ((codes "password", w) ∷ [])))
  unfolding fields
  fields_password req item w p q r s t =
      let one : add_fields k d.now item (codes "password" ∷ []) []
          ≡ some ((codes "password", w) ∷ []) =
        only_password item w t in
      ground (arith, p, q, r, s, one)

  handle_told :
      (answer : Answer)
      → env.kind ≡ NmType.vault_fields_get
      → fields k d (some host) env ≡ some answer
      → handle k d (some host) env ≡ some (some host, answer)
  unfolding handle
  handle_told answer p q = ground (arith, p, q)

module _ {Value : Type 0} (k : Crates Value) (d e : Draw) (host : Host) (vk : Bytes)
    (env ask : NmEnvelope Value) (req : SaveCandidateRequest) (reason : Text) (page : Origin)
    (pt : Bytes) where
  -- If an unlocked host is to save a password for a page, none of its logins for that page has the
  -- user name, the id and the nonce drawn have their lengths, the clock reads a 64-bit time, the
  -- text of the id and the JSON of the new item read back, and the page's origin parses, then the
  -- host answers that it created the item, and when asked for the password of that item by the
  -- same page it tells exactly the password that was saved.
  pub save_candidate-fields :
      key host.session ≡ ok vk
      → env.kind ≡ NmType.vault_save_candidate
      → k.to_save env.payload ≡ some req
      → is_empty req.password ≡ false
      → find (is_same_login k req) (load_items k host) ≡ none
      → length d.id ≡ 16
      → length d.nonce ≡ 24
      → InI64 d.now
      → k.uuid_parse (k.uuid_text d.id) ≡ some d.id
      → k.item_json.to_vec (created_login k d req) ≡ some pt
      → k.item_json.from_slice pt ≡ some (created_login k d req)
      → parse_origin k.url_parse req.origin ≡ some page
      → ask.kind ≡ NmType.vault_fields_get
      → k.to_fields ask.payload ≡ some (password_of (k.uuid_text d.id) req.origin reason)
      → (after : Host) × (handle k d (some host) env
          ≡ some (
            some after,
            ok_reply env.id NmType.vault_save_candidate
                (saved (codes "created") (k.uuid_text d.id)),
          ))
        × (handle k e (some after) ask
            ≡ some (
              some after,
              ok_reply ask.id NmType.vault_fields_get
                  (found_fields ((codes "password", req.password) ∷ [])),
            ))
  unfolding created_login new_login password
  save_candidate-fields unlocked kind asked not_empty new id nonce time uuid to_vec from_slice
        origin kind' asked' =
      let item = created_login k d req in
      let (sealed, vault, seal_ok, upsert_ok, get_ok, open_ok) =
        stored k d host vk unlocked item pt id nonce time to_vec from_slice in
      let after : Host = record host { vault = vault } in
      let reply = saved (codes "created") (k.uuid_text d.id) in
      let done =
        store_item_ok k d host env item sealed vault reply NmType.vault_save_candidate seal_ok
          upsert_ok in
      let wrote =
        save_login_new k d host env req after (ok_reply env.id NmType.vault_save_candidate reply)
          new done in
      let told =
        fields_password k e after ask (password_of (k.uuid_text d.id) req.origin reason) item
          req.password asked'
          (lookup_item_ok k e after ask (k.uuid_text d.id) d.id sealed item uuid get_ok open_ok)
          (origin_matches_self k.url_parse req.origin page origin) refl refl in
      (
        after,
        handle_save k d host env req after (ok_reply env.id NmType.vault_save_candidate reply) kind
            asked not_empty wrote,
        handle_told k e after ask
            (ok_reply ask.id NmType.vault_fields_get
              (found_fields ((codes "password", req.password) ∷ [])))
            kind' told,
      )
