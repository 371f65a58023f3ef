-- ===== src/Api/Sessions.antt =====
-- services/api/src/routes.rs, the refresh tokens of the sessions: `mint_session`, `auth_refresh` and
-- `auth_logout`, behind the `guard` of an endpoint. SHA-256, the signed access token and the draws
-- are parameters. The handler's statements run without others between them. The address of the
-- caller is an argument.
pub mod Reuse
pub mod Rotation
mod Tests
use vpn_password_manager.Base.{
  ℕ, ◌+◌, ◌*◌, Text, codes, text_eq, Bool, true, false, ◌&&◌, List, [], ◌∷◌, ◌++◌, Option, none,
  some, ltb, if◌then◌else◌,
}
use vpn_password_manager.Base.Assoc.{Assoc, lookup, insert}
use vpn_password_manager.Base.Bytes.{Bytes}
use vpn_password_manager.Error.{Result, ok, err}
use vpn_password_manager.Api.Error.{ApiError, unauthorized, forbidden, rate_limited, internal}
use vpn_password_manager.Api.Ratelimit.{RateLimiter, check}
use vpn_password_manager.Api.Vaults.{Auth}
use vpn_password_manager.Api.Security.{
  AutobanConfig, Monitor, record_event, is_banned, maybe_autoban,
}

pub record RefreshToken : Type 0 where
  pub account : Text
  pub device : Text
  pub token_hash : Bytes
  pub parent_id : Option Text
  pub expires_at : ℕ
  pub revoked_at : Option ℕ

-- The table, by the primary key.
abbrev pub Tokens : Type 0
Tokens = Assoc RefreshToken

pub record Service : Type 0 where
  pub tokens : Tokens
  pub monitor : Monitor
  pub limiter : RateLimiter

-- The clock in seconds and in the limiter's nanoseconds, and the draws of one request.
pub record Env : Type 0 where
  pub now : ℕ
  pub instant : ℕ
  pub cfg : AutobanConfig
  pub ip_opt : Text → Option Text
  pub sha256 : Text → Bytes
  pub fresh_token : Text
  pub fresh_id : Text
  pub issue_access : Text → Text → ℕ → Result ApiError Text

pub record TokensResp : Type 0 where
  pub access_token : Text
  pub refresh_token : Text
  pub expires_in : ℕ

unfoldable pub revoke_row : ℕ → RefreshToken → RefreshToken
revoke_row now t = record t { revoked_at = some now }

-- An UPDATE of `revoked_at` where the test holds of the id and the row.
unfoldable pub revoke_where : (Text → RefreshToken → Bool) → ℕ → Tokens → Tokens
unfolding revoke_row
revoke_where p now [] = []
revoke_where p now ((id, t) ∷ rest) =
    (id, if p id t then revoke_row now t else t) ∷ revoke_where p now rest

unfoldable pub find_hash : Bytes → Tokens → Option (Text × RefreshToken)
find_hash hash [] = none
find_hash hash ((id, t) ∷ rest) =
    let later = find_hash hash rest in if text_eq t.token_hash hash then some (id, t) else later

abbrev pub is_of : Text → Text → RefreshToken → Bool
is_of account device t = text_eq t.account account && text_eq t.device device

abbrev pub is_live : RefreshToken → Bool
is_live t = elim t.revoked_at [ none ↦ true | some at ↦ false ]

abbrev pub new_row : Env → Text → Text → Option Text → RefreshToken
new_row e account device parent = record {
  account = account;
  device = device;
  token_hash = e.sha256 e.fresh_token;
  parent_id = parent;
  expires_at = e.now + 30 * 86400;
  revoked_at = none;
}

-- The key and the hash are unique.
unfoldable pub mint_session :
    Env → Tokens → Text → Text → Option Text → Tokens × Result ApiError TokensResp
unfolding find_hash
mint_session e tokens account device parent = elim (e.issue_access account device e.now) [
  | err x ↦ (tokens, err x)
  | ok access ↦ elim (lookup e.fresh_id tokens) [
    | some t ↦ (tokens, err internal)
    | none ↦ elim (find_hash (e.sha256 e.fresh_token) tokens) [
      | some found ↦ (tokens, err internal)
      | none ↦ (
        insert e.fresh_id (new_row e account device parent) tokens,
        ok (record { access_token = access; refresh_token = e.fresh_token; expires_in = 600 }),
      )
    ]
  ]
]

unfoldable pub guard : Env → Service → Text → Text → ℕ → ℕ → Service × Result ApiError Text
guard e s ip action max secs =
    if is_banned e.ip_opt e.now s.monitor ip
    then (
      record s { monitor = record_event e.ip_opt e.now s.monitor none (codes "banned_block") ip },
      err forbidden,
    )
    else let (allowed, limiter) =
        check e.instant (action ++ (b':' ∷ ip)) max (secs * 1000000000) s.limiter in
      if allowed then (record s { limiter = limiter }, ok ip) else (
        record s {
          limiter = limiter;
          monitor =
              maybe_autoban e.ip_opt e.now e.cfg
                (record_event e.ip_opt e.now s.monitor none (codes "rate_limited") ip) ip;
        },
        err rate_limited,
      )

-- A token that is no longer live was presented.
unfoldable pub reuse_detected : Env → Service → Text → RefreshToken → Service
unfolding revoke_where
reuse_detected e s ip t = record s {
  tokens = revoke_where (λ id r. is_of t.account t.device r) e.now s.tokens;
  monitor =
      maybe_autoban e.ip_opt e.now e.cfg
        (record_event e.ip_opt e.now s.monitor (some t.account) (codes "refresh_reuse") ip) ip;
}

-- Behind the guard.
unfoldable pub rotate : Env → Service → Text → Text → Service × Result ApiError TokensResp
unfolding revoke_where reuse_detected mint_session
rotate e s ip refresh_token = elim (find_hash (e.sha256 refresh_token) s.tokens) [
  | none ↦ (s, err unauthorized)
  | some (id, t) ↦
      if is_live t
      then if ltb t.expires_at e.now
        then (s, err unauthorized)
        else (let revoked = revoke_where (λ i r. text_eq i id) e.now s.tokens in
            let (tokens, answer) = mint_session e revoked t.account t.device (some id) in
            (record s { tokens = tokens }, answer))
      else (reuse_detected e s ip t, err unauthorized)
]

unfoldable pub auth_refresh : Env → Service → Text → Text → Service × Result ApiError TokensResp
unfolding guard rotate
auth_refresh e s ip refresh_token =
    let (guarded, allowed) = guard e s ip (codes "auth_refresh") 30 60 in
    elim allowed [ err x ↦ (guarded, err x) | ok caller ↦ rotate e guarded caller refresh_token ]

unfoldable pub auth_logout : Env → Service → Auth → Service
unfolding revoke_where
auth_logout e s a = record s {
  tokens = revoke_where (λ id r. is_of a.account a.device r && is_live r) e.now s.tokens;
}
