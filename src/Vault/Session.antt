-- ===== src/Vault/Session.antt =====
-- crates/core/src/vault/session.rs: the unlocked session, and which items a page may be filled with.
-- The URL crate is a parameter.
pub mod Origins
pub mod Ranking
pub mod Sites
pub mod Domains
use vpn_password_manager.Base.{
  ℕ, ◌+◌, ◌==◌, ℤ, leb_ℤ, Text, codes, text_eq, Bool, true, false, ◌&&◌, not, List, [], ◌∷◌, ◌++◌,
  Option, none, some, reverse, any, leb, map, retain, if◌then◌else◌,
}
use vpn_password_manager.Base.Bytes.{Bytes}
use vpn_password_manager.Error.{CoreError, Result, state, ◌>>=◌, ok_or}
use vpn_password_manager.Crypto.{Primitives}
use vpn_password_manager.Vault.Model.{Item, UrlMatch, UrlMode}
use vpn_password_manager.Vault.Envelope.{ItemJson, seal_item, open_item}

pub record VaultSession : Type 0 where
  pub vault_key : Option Bytes

unfoldable pub locked : VaultSession
locked = record { vault_key = none }

unfoldable pub unlocked : Bytes → VaultSession
unlocked k = record { vault_key = some k }

unfoldable pub is_locked : VaultSession → Bool
is_locked s = elim s.vault_key [ none ↦ true | some k ↦ false ]

unfoldable pub lock : VaultSession → VaultSession
lock s = record s { vault_key = none }

unfoldable pub key : VaultSession → Result CoreError Bytes
key s = ok_or s.vault_key (state "vault is locked")

module _ (c : Primitives) (json : ItemJson) where
  -- The nonce is an argument.
  unfoldable pub seal : Bytes → VaultSession → Item → Result CoreError Bytes
  seal nonce s item = do k ← key s; seal_item c json nonce k item

  unfoldable pub open_envelope : VaultSession → Bytes → Result CoreError Item
  open_envelope s env = do k ← key s; open_item c json k env

-- What the code takes of a parsed URL; the port is absent if it is the scheme's own.
pub record ParsedUrl : Type 0 where
  pub scheme : Text
  pub host_str : Option Text
  pub port : Option ℕ

pub record Origin : Type 0 where
  pub scheme : Text
  pub host : Text
  pub port : Option ℕ

abbrev lower : ℕ → ℕ
lower ch = if leb b'A' ch && leb ch b'Z' then ch + 32 else ch

unfoldable pub to_ascii_lowercase : Text → Text
to_ascii_lowercase s = map lower s

-- `split(sep)`: always at least one part.
unfoldable pub with_head : ℕ → List Text → List Text
with_head c [] = (c ∷ []) ∷ []
with_head c (p ∷ ps) = (c ∷ p) ∷ ps

unfoldable pub split : ℕ → Text → List Text
unfolding with_head
split sep [] = [] ∷ []
split sep (c ∷ s) = let rest = split sep s in if c == sep then [] ∷ rest else with_head c rest

unfoldable pub two_label_suffixes : List Text
two_label_suffixes =
    codes "co.uk"
    ∷ codes "org.uk"
    ∷ codes "gov.uk"
    ∷ codes "ac.uk"
    ∷ codes "co.jp"
    ∷ codes "or.jp"
    ∷ codes "ne.jp"
    ∷ codes "com.au"
    ∷ codes "net.au"
    ∷ codes "org.au"
    ∷ codes "co.nz"
    ∷ codes "com.br"
    ∷ codes "com.mx"
    ∷ codes "co.in"
    ∷ codes "co.za"
    ∷ codes "com.sg"
    ∷ []

-- `format!("{}.{}", a, b)`.
abbrev pub dotted : Text → Text → Text
dotted a b = a ++ (b'.' ∷ b)

-- From the labels of a host, the last one first.
unfoldable pub registrable_of : Text → List Text → Text
registrable_of host (z ∷ y ∷ x ∷ labels) =
    let last2 = dotted y z in
    if any (λ s. text_eq s last2) two_label_suffixes then dotted x last2 else last2
registrable_of host _ = host

unfoldable pub registrable_domain : Text → Text
registrable_domain host = registrable_of host (reverse (split b'.' host))

abbrev pub port_eq : Option ℕ → Option ℕ → Bool
port_eq none none = true
port_eq none (some q) = false
port_eq (some p) none = false
port_eq (some p) (some q) = p == q

unfoldable pub hosts_match : UrlMode → Text → Text → Bool
hosts_match UrlMode.host saved page = text_eq saved page
hosts_match UrlMode.domain saved page = text_eq (registrable_domain saved) (registrable_domain page)

module _ (url_parse : Text → Option ParsedUrl) where
  unfoldable pub parse_origin : Text → Option Origin
  parse_origin s = elim (url_parse s) [
    | none ↦ none
    | some url ↦ elim url.host_str [
      | none ↦ none
      | some host ↦
          some (record { scheme = url.scheme; host = to_ascii_lowercase host; port = url.port })
    ]
  ]

  -- The three rules, for a saved and a page's origin.
  unfoldable pub rules_allow : UrlMode → Origin → Origin → Bool
  rules_allow mode saved page =
      if text_eq saved.scheme (codes "https") && text_eq page.scheme (codes "http")
      then false
      else if not (port_eq saved.port page.port)
      then false
      else hosts_match mode saved.host page.host

  unfoldable pub url_matches : Origin → UrlMatch → Bool
  url_matches page u = elim (parse_origin u.url) [
    | none ↦ false
    | some saved ↦ rules_allow u.mode saved page
  ]

  unfoldable pub origin_matches : List UrlMatch → Text → Bool
  origin_matches urls page_origin = elim (parse_origin page_origin) [
    | none ↦ false
    | some page ↦ any (url_matches page) urls
  ]

  -- Of a candidate with its envelope, the item. The most recently updated first; items of one time keep their order.
  unfoldable pub insert_recent : Item → List Item → List Item
  insert_recent a [] = a ∷ []
  insert_recent a (b ∷ rest) =
      if leb_ℤ b.updated_at a.updated_at then a ∷ b ∷ rest else b ∷ insert_recent a rest

  unfoldable pub sort_recent : List Item → List Item
  sort_recent [] = []
  sort_recent (a ∷ rest) = insert_recent a (sort_recent rest)

  unfoldable pub rank_matches : List Item → Text → List Item
  rank_matches items page_origin =
      sort_recent (retain (λ (i : Item). origin_matches i.urls page_origin) items)
