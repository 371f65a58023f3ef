-- ===== src/Api/Sessions/Reuse.antt =====
-- What follows when a refresh token is presented twice.
use vpn_password_manager.Base.{
  ℕ, Text, codes, text_eq, text_eq_iff, Bool, true, false, ◌&&◌, [], ◌∷◌, Option, none, some, ◌≡◌,
  inl, inr, All, arith, Bool-cases, Option-cases, if◌then◌else◌, ltb,
}
use vpn_password_manager.Base.Assoc.{lookup, insert}
use vpn_password_manager.Base.Bytes.{Bytes}
use vpn_password_manager.Error.{Result, ok}
use vpn_password_manager.Api.Error.{ApiError}
use vpn_password_manager.Api.Sessions.{
  RefreshToken, Tokens, Service, Env, TokensResp, new_row, revoke_row, revoke_where, find_hash,
  is_of, is_live, mint_session, guard, rotate, auth_refresh,
}

-- The row after the update.
abbrev pub revoked_if : (Text → RefreshToken → Bool) → ℕ → Text → RefreshToken → RefreshToken
revoked_if p now id t = if p id t then revoke_row now t else t

pub find_hash-revoke_where :
    (p : Text → RefreshToken → Bool) (now : ℕ) (hash : Bytes) (m : Tokens) (id : Text)
    (t : RefreshToken)
    → find_hash hash m ≡ some (id, t)
    → find_hash hash (revoke_where p now m) ≡ some (id, revoked_if p now id t)
unfolding find_hash revoke_where revoke_row
find_hash-revoke_where p now hash [] id t e = cc
find_hash-revoke_where p now hash ((j, u) ∷ m) id t e =
    elim (Bool-cases (text_eq u.token_hash hash)) [
      | inl q ↦ ground (arith, e, q)
      | inr q ↦ ground (arith, e, q, find_hash-revoke_where p now hash m id t)
    ]

pub find_hash-insert :
    (hash : Bytes) (k : Text) (row : RefreshToken) (m : Tokens) (x : Text × RefreshToken)
    → lookup k m ≡ none
    → find_hash hash m ≡ some x
    → find_hash hash (insert k row m) ≡ some x
unfolding find_hash insert lookup
find_hash-insert hash k row [] x a e = cc
find_hash-insert hash k row ((j, u) ∷ m) x a e =
    ground (arith, a, e, text_eq_iff j k, find_hash-insert hash k row m x)

-- No token of the device is live.
abbrev pub NoneLive : Text → Text → Tokens → Type 0
NoneLive account device m = All (λ e. (is_of account device e.1 && is_live e.1) ≡ false) m

pub guard-tokens :
    (e : Env) (s : Service) (ip action : Text) (max secs : ℕ)
    → (guard e s ip action max secs).0.tokens ≡ s.tokens
unfolding guard
guard-tokens e s ip action max secs = ground arith

pub mint_session_inv :
    (e : Env) (m : Tokens) (account device : Text) (parent : Option Text) (resp : TokensResp)
    → (mint_session e m account device parent).1 ≡ ok resp
    → (lookup e.fresh_id m ≡ none)
      × ((mint_session e m account device parent).0
          ≡ insert e.fresh_id (new_row e account device parent) m)
unfolding mint_session
mint_session_inv e m account device parent resp done = ground (arith, done)

-- Rotation succeeded with a live token.
abbrev pub revoked_one : Env → Service → Text → Tokens
revoked_one e s id = revoke_where (λ i r. text_eq i id) e.now s.tokens

module _ (e : Env) (s : Service) (ip tok : Text) (id : Text) (t : RefreshToken)
    (found : find_hash (e.sha256 tok) s.tokens ≡ some (id, t)) where
  pub rotate_inv :
      (resp : TokensResp)
      → (rotate e s ip tok).1 ≡ ok resp
      → (is_live t ≡ true)
        × (lookup e.fresh_id (revoked_one e s id) ≡ none)
        × ((rotate e s ip tok).0.tokens
            ≡ insert e.fresh_id (new_row e t.account t.device (some id)) (revoked_one e s id))
  unfolding rotate
  rotate_inv resp done = elim (Bool-cases (is_live t)) [
    | inr q ↦ absurd (ground (arith, done, found, q))
    | inl q ↦ elim (Bool-cases (ltb t.expires_at e.now)) [
      | inl r ↦ absurd (ground (arith, done, found, q, r))
      | inr r ↦
          let minted : (mint_session e (revoked_one e s id) t.account t.device (some id)).1
              ≡ ok resp =
            ground (arith, done, found, q, r) in
          let (absent, table) =
            mint_session_inv e (revoked_one e s id) t.account t.device (some id) resp minted in
          (q, absent, ground (arith, found, q, r, table))
    ]
  ]

pub rotate_found :
    (e : Env) (s : Service) (ip tok : Text) (resp : TokensResp)
    → (rotate e s ip tok).1 ≡ ok resp
    → (id : Text) × (t : RefreshToken) × (find_hash (e.sha256 tok) s.tokens ≡ some (id, t))
unfolding rotate
rotate_found e s ip tok resp done = elim (Option-cases (find_hash (e.sha256 tok) s.tokens)) [
  | inl p ↦ absurd (ground (arith, done, p))
  | inr ((id, t), p) ↦ (id, t, p)
]

abbrev pub guarded : Env → Service → Text → Service × Result ApiError Text
guarded e s ip = guard e s ip (codes "auth_refresh") 30 60

pub auth_refresh_inv :
    (e : Env) (s : Service) (ip tok caller : Text)
    → (guarded e s ip).1 ≡ ok caller
    → auth_refresh e s ip tok ≡ rotate e (guarded e s ip).0 caller tok
unfolding auth_refresh
auth_refresh_inv e s ip tok caller p = ground (arith, p)
