-- ===== src/Vpn/SplitTunnel.antt =====
-- The end of crates/core/src/vpn/session.rs: which addresses are routed through the tunnel.
use vpn_password_manager.Base.{
  Text, codes, text_eq, Bool, true, false, ◌&&◌, ◌||◌, not, List, [], ◌∷◌, Option, none, some, ◌≡◌,
  ◌≢◌, refl, map, leb, retain, is_empty, In, ◌↔◌, if◌then◌else◌, ◌⊎◌, inl, inr, arith, Bool-cases,
}
use vpn_password_manager.Base.Format.{trim, parse_u32, split_once, contains}
use vpn_password_manager.Wg.{full_tunnel}

-- A prefix length that parses and is at most 128.
unfoldable pub prefix_ok : Text → Bool
prefix_ok prefix = elim (parse_u32 prefix) [ none ↦ false | some bits ↦ leb bits 128 ]

unfoldable pub looks_like_cidr : Text → Bool
unfolding prefix_ok
looks_like_cidr s = elim (split_once b'/' (trim s)) [
  | none ↦ false
  | some (addr, prefix) ↦
      if is_empty addr
      then false
      else if prefix_ok prefix
      then contains b'.' addr || contains b':' addr
      else false
]

unfoldable pub valid_cidrs : List Text → List Text
valid_cidrs split_routes = retain looks_like_cidr (map trim split_routes)

abbrev pub is_split : Option Text → Bool
is_split none = false
is_split (some mode) = text_eq mode (codes "split")

unfoldable pub decide_allowed_ips : Option Text → List Text → List Text
decide_allowed_ips tunnel_mode split_routes =
    let cidrs = valid_cidrs split_routes in
    if is_split tunnel_mode && not (is_empty cidrs) then cidrs else full_tunnel

not_empty : (xs : List Text) (x : Text) → In x xs → is_empty xs ≡ false
not_empty [] x i = absurd i
not_empty (y ∷ xs) x i = refl

-- A route that some setting gives once it is trimmed, and that looks like a CIDR.
abbrev pub IsChosen : List Text → Text → Type 0
IsChosen routes r = (s : Text) × In s routes × (r ≡ trim s) × (looks_like_cidr r ≡ true)

IsChosen-of : (routes : List Text) (r : Text) → In r (valid_cidrs routes) → IsChosen routes r
unfolding valid_cidrs
IsChosen-of [] r i = absurd i
IsChosen-of (s ∷ routes) r i = elim (Bool-cases (looks_like_cidr (trim s))) [
  | inl e ↦ elim (let j : In r (trim s ∷ valid_cidrs routes) = rw e at i in j) [
    | inl p ↦ (s, inl refl, p, rw p e)
    | inr j ↦ let (t, k, p, c) = IsChosen-of routes r j in (t, inr k, p, c)
  ]
  | inr e ↦ let (t, k, p, c) = IsChosen-of routes r (rw e at i) in (t, inr k, p, c)
]

of-IsChosen :
    (routes : List Text) (s : Text)
    → In s routes
    → looks_like_cidr (trim s) ≡ true
    → In (trim s) (valid_cidrs routes)
unfolding valid_cidrs
of-IsChosen [] s i c = absurd i
of-IsChosen (t ∷ routes) s (inl p) c = rw (← p) (rw c (inl refl))
of-IsChosen (t ∷ routes) s (inr i) c = elim (Bool-cases (looks_like_cidr (trim t))) [
  | inl e ↦ rw e (inr (of-IsChosen routes s i c))
  | inr e ↦ rw e (of-IsChosen routes s i c)
]

In-valid_cidrs : (routes : List Text) (r : Text) → In r (valid_cidrs routes) ↔ IsChosen routes r
In-valid_cidrs routes r =
    (IsChosen-of routes r, λ (s, i, p, c). rw p (of-IsChosen routes s i (rw p at c)))

-- The tunnel never routes nothing: the routes are the full tunnel, or, in split mode only, a list
-- that is not empty and holds exactly the trimmed routes of the setting that look like CIDRs.
pub decide_allowed_ips_lem :
    (mode : Option Text) (routes : List Text)
    → (decide_allowed_ips mode routes ≢ [])
      × ((decide_allowed_ips mode routes ≡ full_tunnel)
          ⊎ ((is_split mode ≡ true)
              × ((r : Text) → In r (decide_allowed_ips mode routes) ↔ IsChosen routes r)))
unfolding decide_allowed_ips full_tunnel
decide_allowed_ips_lem mode routes =
    elim (Bool-cases (is_split mode && not (is_empty (valid_cidrs routes)))) [
      | inl e ↦ rw e (ground arith, inr (ground arith, In-valid_cidrs routes))
      | inr e ↦ rw e (ground arith, inl refl)
    ]

-- In split mode with a route that looks like a CIDR, the routes are exactly the trimmed routes of the
-- setting that look like CIDRs.
pub split_is_kept :
    (mode : Option Text) (routes : List Text) (s : Text)
    → is_split mode ≡ true
    → In s routes
    → looks_like_cidr (trim s) ≡ true
    → (r : Text) → In r (decide_allowed_ips mode routes) ↔ IsChosen routes r
unfolding decide_allowed_ips
split_is_kept mode routes s m i c =
    let there = of-IsChosen routes s i c in
    let cs = valid_cidrs routes in rw (m, not_empty cs (trim s) there) (In-valid_cidrs routes)
