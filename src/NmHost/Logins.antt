-- ===== src/NmHost/Logins.antt =====
-- The handlers of logins: search, the fields of an item, its one-time password, and a generated
-- password.
use vpn_password_manager.Base.{
  ℕ, suc, ℤ, Text, codes, text_eq, Bool, true, false, ◌||◌, List, [], ◌∷◌, Option, none, some,
  is_empty, take, retain, length, if◌then◌else◌,
}
use vpn_password_manager.Base.Assoc.{Assoc, insert}
use vpn_password_manager.Base.Format.{trim}
use vpn_password_manager.Error.{ok, err}
use vpn_password_manager.Vault.Model.{Item, UrlMatch, username, password}
use vpn_password_manager.Vault.Session.{origin_matches, sort_recent}
use vpn_password_manager.Nm.Protocol.{NmType, NmErrorCode, NmEnvelope, locked_reply}
use vpn_password_manager.Generator
use vpn_password_manager.Generator.{default_spec}
use vpn_password_manager.NmHost.Requests.{
  VaultSearchResultItem, found_items, found_fields, otp_code, generated, Crates, Host, Draw, Answer,
  ok_reply, error_reply, host_of, match_quality, load_items, lookup_item, totp_code, bad_payload,
}

-- `haystack.contains(needle)`.
unfoldable pub contains_text : Text → Text → Bool
contains_text [] needle = is_empty needle
contains_text (c ∷ s) needle =
    let rest = contains_text s needle in text_eq (take (length needle) (c ∷ s)) needle || rest

abbrev pub first_host : List UrlMatch → Option Text
first_host [] = none
first_host (u ∷ us) = some (host_of u.url)

module _ {Value : Type 0} (k : Crates Value) where
  abbrev query_matches : Text → Item → Bool
  query_matches q it =
      is_empty q
      || contains_text (k.to_lowercase it.title) q
      || elim (username it) [ none ↦ false | some u ↦ contains_text (k.to_lowercase u) q ]

  unfoldable pub result_item : Text → ℕ → Item → VaultSearchResultItem
  result_item origin rank it = record {
    id = k.uuid_text it.id;
    title = it.title;
    username = username it;
    favicon_domain = first_host it.urls;
    match_quality = match_quality it origin rank;
  }

  -- `enumerate().map(..)`.
  unfoldable pub result_items : Text → ℕ → List Item → List VaultSearchResultItem
  unfolding result_item
  result_items origin rank [] = []
  result_items origin rank (it ∷ rest) =
      result_item origin rank it ∷ result_items origin (suc rank) rest

  unfoldable pub search : Option Host → NmEnvelope Value → Answer
  unfolding result_items
  search none env = locked_reply env.id
  search (some host) env = elim (k.to_search env.payload) [
    | none ↦ bad_payload k env
    | some req ↦
        let matched = sort_recent k.url_parse (
          retain (λ (it : Item). origin_matches k.url_parse it.urls req.origin)
            (load_items k host)) in
        let q = k.to_lowercase (trim req.query) in
        ok_reply env.id NmType.vault_search
          (found_items (result_items req.origin 0 (retain (query_matches q) matched)))
  ]

  -- A field that the item lacks, or that has another name, is left out.
  unfoldable pub add_field : ℤ → Item → Text → Assoc Text → Option (Assoc Text)
  add_field now item field out =
      if text_eq field (codes "username")
      then elim (username item) [
        | none ↦ some out
        | some u ↦ some (insert (codes "username") u out)
      ]
      else if text_eq field (codes "password")
      then elim (password item) [
        | none ↦ some out
        | some p ↦ some (insert (codes "password") p out)
      ]
      else if text_eq field (codes "totp")
      then elim (totp_code k now item) [
        | none ↦ none
        | some none ↦ some out
        | some (some c) ↦ some (insert (codes "totp") c out)
      ]
      else some out

  unfoldable pub add_fields : ℤ → Item → List Text → Assoc Text → Option (Assoc Text)
  unfolding add_field
  add_fields now item [] out = some out
  add_fields now item (field ∷ rest) out = elim (add_field now item field out) [
    | none ↦ none
    | some next ↦ add_fields now item rest next
  ]

  abbrev pub wrong_origin : NmEnvelope Value → Answer
  wrong_origin env =
      error_reply env.id env.kind NmErrorCode.bad_origin (codes "origin does not match this item")

  unfoldable pub fields : Draw → Option Host → NmEnvelope Value → Option Answer
  unfolding add_fields
  fields d none env = some (locked_reply env.id)
  fields d (some host) env = elim (k.to_fields env.payload) [
    | none ↦ some (bad_payload k env)
    | some req ↦ elim (lookup_item k host req.id) [
      | err (c, message) ↦ some (error_reply env.id env.kind c message)
      | ok item ↦ elim (origin_matches k.url_parse item.urls req.origin) [
        | false ↦ some (wrong_origin env)
        | true ↦ elim (add_fields d.now item req.fields []) [
          | none ↦ none
          | some out ↦ some (ok_reply env.id NmType.vault_fields_get (found_fields out))
        ]
      ]
    ]
  ]

  unfoldable pub totp : Draw → Option Host → NmEnvelope Value → Option Answer
  totp d none env = some (locked_reply env.id)
  totp d (some host) env = elim (k.to_totp env.payload) [
    | none ↦ some (bad_payload k env)
    | some req ↦ elim (lookup_item k host req.id) [
      | err (c, message) ↦ some (error_reply env.id env.kind c message)
      | ok item ↦ elim (origin_matches k.url_parse item.urls req.origin) [
        | false ↦ some (wrong_origin env)
        | true ↦ elim (totp_code k d.now item) [
          | none ↦ none
          | some none ↦
              some (error_reply env.id env.kind NmErrorCode.not_found (codes "item has no TOTP"))
          | some (some c) ↦ some (ok_reply env.id NmType.vault_totp_get (otp_code c))
        ]
      ]
    ]
  ]

  unfoldable pub generate : Text → Answer
  generate id = elim (Generator.password k.rng default_spec) [
    | ok p ↦ ok_reply id NmType.vault_generate (generated p)
    | err e ↦ error_reply id NmType.vault_generate NmErrorCode.internal (codes "generate failed")
  ]
