-- ===== src/NmHost/Stored.antt =====
-- An item that the host stores, looked up again, and its URL matched with the page it came from.
use vpn_password_manager.Base.{
  ℕ, true, [], ◌∷◌, Option, none, some, ◌≡◌, refl, ap, ◌∙◌, arith, Text, inl, inr, codes,
  text_eq_iff, text_eq_refl, length,
}
use vpn_password_manager.Base.Assoc.{lookup-insert}
use vpn_password_manager.Base.Bytes.{Bytes, InI64}
use vpn_password_manager.Error.{ok, Result-cases}
use vpn_password_manager.Vault.Model.{Item, UrlMode}
use vpn_password_manager.Vault.Envelope.{seal_item}
use vpn_password_manager.Vault.Envelope.RoundTrip.{open_item-seal_item, envelope_meta-seal_item}
use vpn_password_manager.Vault.Session.{
  ParsedUrl, Origin, key, seal, open_envelope, parse_origin, registrable_domain, port_eq,
  hosts_match, rules_allow, url_matches, origin_matches,
}
use vpn_password_manager.Vault.Store.{Row, LocalVault, upsert_row, upsert, get}
use vpn_password_manager.NmHost.Requests.{Crates, Host, Draw}
use vpn_password_manager.NmHost.Saving.{}

port_eq_refl : (p : Option ℕ) → port_eq p p ≡ true
port_eq_refl none = refl
port_eq_refl (some n) = ground arith

module _ (url_parse : Text → Option ParsedUrl) (origin : Text) (page : Origin) where
  -- A page matches a URL that was saved from itself.
  pub origin_matches_self :
      parse_origin url_parse origin ≡ some page
      → origin_matches url_parse (record { url = origin; mode = UrlMode.domain } ∷ []) origin ≡ true
  unfolding origin_matches url_matches rules_allow hosts_match
  origin_matches_self p = ground (
    arith,
    p,
    port_eq_refl page.port,
    text_eq_refl (registrable_domain page.host),
    text_eq_iff page.scheme (codes "https"),
    text_eq_iff page.scheme (codes "http"),
  )

module _ {Value : Type 0} (k : Crates Value) (d : Draw) (host : Host) (vk : Bytes)
    (unlocked : key host.session ≡ ok vk) (item : Item) (pt : Bytes) (id : length item.id ≡ 16)
    (nonce : length d.nonce ≡ 24) (time : InI64 item.updated_at)
    (to_vec : k.item_json.to_vec item ≡ some pt)
    (from_slice : k.item_json.from_slice pt ≡ some item) where
  seal_item_total : (sealed : Bytes) × (seal_item k.cipher k.item_json d.nonce vk item ≡ ok sealed)
  unfolding seal_item
  seal_item_total = elim (Result-cases (seal_item k.cipher k.item_json d.nonce vk item)) [
    | inl (e, p) ↦ absurd (ground (arith, p, to_vec))
    | inr sealed ↦ sealed
  ]

  -- An item that is stored is looked up again in the host that this leaves.
  pub stored :
      (sealed : Bytes) × (vault : LocalVault) × (seal k.cipher k.item_json d.nonce host.session item
        ≡ ok sealed)
      × (upsert host.vault sealed ≡ ok vault)
      × (get vault item.id ≡ some sealed)
      × (open_envelope k.cipher k.item_json host.session sealed ≡ ok item)
  unfolding seal upsert upsert_row get open_envelope
  stored =
      let back : (b : Bytes)
          → k.item_json.to_vec item ≡ some b
          → k.item_json.from_slice b ≡ some item =
        λ b q.
          let same : b ≡ pt = ground (arith, q, to_vec) in
          ap k.item_json.from_slice same ∙ from_slice in
      let (sealed, p) = seal_item_total in
      let meta = envelope_meta-seal_item k.cipher k.item_json d.nonce vk item sealed id time p in
      let opened =
        open_item-seal_item k.cipher k.item_json d.nonce vk item sealed id nonce back p in
      let row : Row = record { envelope = sealed; updated_at = item.updated_at } in
      (
        sealed,
        upsert_row host.vault item.id row,
        ground (arith, unlocked, p),
        ground (arith, meta),
        ground (arith, lookup-insert item.id item.id row host.vault.items, text_eq_refl item.id),
        ground (arith, unlocked, opened),
      )
