-- ===== src/Vault/Envelope/RoundTrip.antt =====
-- What `seal_item` sealed is opened to the same item, and its header is read back.
use vpn_password_manager.Base.{
  ◌+◌, ◌≤◌, text_eq_refl, ◌++◌, some, ◌≡◌, refl, length, take, drop, length-append, take-append,
  drop-append, append_assoc, arith, ltb, true, false, ge→ltb, ℤ, text_eq_iff,
}
use vpn_password_manager.Base.Bytes.{
  Bytes, InI64, i64_to_le, i64_from_le, i64_from_le-i64_to_le, length-to_le,
}
use vpn_password_manager.Error.{ok}
use vpn_password_manager.Crypto
use vpn_password_manager.Crypto.{Primitives, open_sealed-seal, length-seal}
use vpn_password_manager.Vault.Model.{Item}
use vpn_password_manager.Vault.Envelope.{
  ItemJson, item_version, header, first_is, envelope_meta, item_key, seal_item, open_item,
}

length-i64_to_le : (item : Item) → length (i64_to_le item.updated_at) ≡ 8
unfolding i64_to_le
length-i64_to_le item = length-to_le 8 _

length-header : (item : Item) → length item.id ≡ 16 → length (header item) ≡ 25
unfolding header
length-header item h =
    omega (arith, length-append item.id (i64_to_le item.updated_at), length-i64_to_le item)

module _ (item : Item) (rest : Bytes) (h : length item.id ≡ 16) where
  length-sealed : length (header item ++ rest) ≡ 25 + length rest
  length-sealed = omega (arith, length-append (header item) rest, length-header item h)

  id_field : take 16 (drop 1 (header item ++ rest)) ≡ item.id
  unfolding header
  id_field = rw append_assoc (take-append item.id _ 16 h)

  behind_id : drop 17 (header item ++ rest) ≡ i64_to_le item.updated_at ++ rest
  unfolding header
  behind_id = rw append_assoc (drop-append item.id _ 16 h)

  updated_at_field : take 8 (drop 17 (header item ++ rest)) ≡ i64_to_le item.updated_at
  updated_at_field = rw behind_id (take-append _ rest 8 (length-i64_to_le item))

  header_field : take 25 (header item ++ rest) ≡ header item
  header_field = take-append (header item) rest 25 (length-header item h)

  behind_header : drop 25 (header item ++ rest) ≡ rest
  behind_header = drop-append (header item) rest 25 (length-header item h)

  -- The header in front of any rest is what `envelope_meta` reads.
  envelope_meta-header :
      InI64 item.updated_at → envelope_meta (header item ++ rest) ≡ ok (item.id, item.updated_at)
  unfolding envelope_meta
  envelope_meta-header r =
      rw (length-sealed, id_field, updated_at_field, i64_from_le-i64_to_le item.updated_at r)
        (ground arith)

first_field : (item : Item) (rest : Bytes) → first_is item_version (header item ++ rest) ≡ true
unfolding header
first_field item rest = refl

-- The fields of header, nonce and ciphertext, as `open_item` cuts them.
module _ (item : Item) (nonce ct : Bytes) (h : length item.id ≡ 16) (n : length nonce ≡ 24) where
  not_short : 16 ≤ length ct → ltb (length (header item ++ (nonce ++ ct))) 65 ≡ false
  not_short long =
      ge→ltb _ 65 (omega (arith, long, length-sealed item (nonce ++ ct) h, length-append nonce ct))

  nonce_field : take 24 (drop 25 (header item ++ (nonce ++ ct))) ≡ nonce
  nonce_field = rw (behind_header item (nonce ++ ct) h) (take-append nonce ct 24 n)

  ct_field : drop 49 (header item ++ (nonce ++ ct)) ≡ ct
  ct_field = rw (← append_assoc) (
      drop-append (header item ++ nonce) ct 49
        (omega (arith, length-append (header item) nonce, length-header item h)))

module _ (c : Primitives) (json : ItemJson) (nonce vk : Bytes) (item : Item) where
  -- A sealed item is its header, the nonce and the ciphertext of its JSON text.
  seal_item_inv :
      (env : Bytes)
      → seal_item c json nonce vk item ≡ ok env
      → (pt : Bytes) × (json.to_vec item ≡ some pt)
        × (env
            ≡ header item
              ++ (nonce ++ Crypto.seal c (item_key c json vk item.id) (header item) nonce pt))
  unfolding seal_item
  seal_item_inv env e = ground arith

  -- If an item with a 16-byte id and a 64-bit time is sealed, its envelope's header gives that id
  -- and that time back, without the key.
  pub envelope_meta-seal_item :
      (env : Bytes)
      → length item.id ≡ 16
      → InI64 item.updated_at
      → seal_item c json nonce vk item ≡ ok env
      → envelope_meta env ≡ ok (item.id, item.updated_at)
  envelope_meta-seal_item env h r e =
      let (pt, p, q) = seal_item_inv env e in rw q (envelope_meta-header item _ h r)

  -- If an item with a 16-byte id is sealed with a 24-byte nonce, and its JSON text reads back to
  -- the item, then opening the envelope under the same key gives the item.
  pub open_item-seal_item :
      (env : Bytes)
      → length item.id ≡ 16
      → length nonce ≡ 24
      → ((pt : Bytes) → json.to_vec item ≡ some pt → json.from_slice pt ≡ some item)
      → seal_item c json nonce vk item ≡ ok env
      → open_item c json vk env ≡ ok item
  unfolding open_item
  open_item-seal_item env h n back e =
      let (pt, p, q) = seal_item_inv env e in
      let key = item_key c json vk item.id in
      let ct = Crypto.seal c key (header item) nonce pt in
      let long : 16 ≤ length ct = omega (arith, length-seal c key (header item) nonce pt) in
      rw q (
        simp (
          not_short item nonce ct h n long,
          first_field,
          id_field item (nonce ++ ct) h,
          header_field item (nonce ++ ct) h,
          nonce_field item nonce ct h n,
          ct_field item nonce ct h n,
          open_sealed-seal c key (header item) nonce pt,
          back pt p,
          text_eq_refl,
        ))

-- An item that opens has the id that its envelope's header shows without the key.
pub open_item-meta :
    (c : Primitives) (json : ItemJson) (vk env : Bytes) (item : Item)
    → open_item c json vk env ≡ ok item
    → (ts : ℤ) × (envelope_meta env ≡ ok (item.id, ts))
unfolding open_item envelope_meta
open_item-meta c json vk env item e =
    (i64_from_le (take 8 (drop 17 env)), ground (arith, text_eq_iff item.id (take 16 (drop 1 env))))
