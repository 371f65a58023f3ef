-- ===== src/Api/Sessions/Rotation.antt =====
-- The invariant of the table of refresh tokens: a token that has a successor is revoked.
use vpn_password_manager.Base.{
  ℕ, Text, codes, ◌&&◌, text_eq, text_eq_iff, text_eq_refl, Bool, false, [], ◌∷◌, Option, none,
  some, ◌≡◌, refl, sym, ap, ◌∙◌, subst, inl, inr, arith, Bool-cases, Option-cases, if◌then◌else◌,
  ltb,
}
use vpn_password_manager.Base.Assoc.{lookup, insert, lookup-insert, IsUnique, insert-IsUnique}
use vpn_password_manager.Base.Bytes.{Bytes}
use vpn_password_manager.Error.{err, Result-cases}
use vpn_password_manager.Api.Error.{ApiError}
use vpn_password_manager.Api.Vaults.{Auth}
use vpn_password_manager.Api.Sessions.{
  RefreshToken, Tokens, Service, Env, new_row, is_of, mint_session, revoke_row, revoke_where,
  find_hash, is_live, reuse_detected, rotate, auth_refresh, auth_logout,
}
use vpn_password_manager.Api.Sessions.Reuse.{
  revoked_if, guard-tokens, revoked_one, mint_session_inv, guarded,
}

pub record IsRotated (m : Tokens) : Type 0 where
  pub unique : IsUnique m
  pub parents :
      (id p : Text) (t : RefreshToken)
      → lookup id m ≡ some t
      → t.parent_id ≡ some p
      → (q : RefreshToken) × (lookup p m ≡ some q) × (is_live q ≡ false)

module _ (p : Text → RefreshToken → Bool) (now : ℕ) where
  abbrev updated : Text → Option RefreshToken → Option RefreshToken
  updated id none = none
  updated id (some t) = some (revoked_if p now id t)

  lookup-revoke_where :
      (id : Text) (m : Tokens) → lookup id (revoke_where p now m) ≡ updated id (lookup id m)
  unfolding lookup revoke_where revoke_row
  lookup-revoke_where id [] = refl
  lookup-revoke_where id ((j, t) ∷ m) = elim (Bool-cases (text_eq j id)) [
    | inl q ↦
        let same : j ≡ id = (text_eq_iff j id).0 q in
        rw q (ap (λ x. some (revoked_if p now x t)) same)
    | inr q ↦ rw q (lookup-revoke_where id m)
  ]

  revoke_where-IsUnique : (m : Tokens) → IsUnique m → IsUnique (revoke_where p now m)
  unfolding revoke_where revoke_row
  revoke_where-IsUnique [] u = tt
  revoke_where-IsUnique ((j, t) ∷ m) u =
      (lookup-revoke_where j m ∙ ap (updated j) u.0, revoke_where-IsUnique m u.1)

  revoked_if_dead :
      (id : Text) (t : RefreshToken) → is_live t ≡ false → is_live (revoked_if p now id t) ≡ false
  unfolding revoke_row
  revoked_if_dead id t e = ground (arith, e)

  -- An update of `revoked_at` keeps the invariant.
  revoke_where-IsRotated : (m : Tokens) → IsRotated m → IsRotated (revoke_where p now m)
  unfolding revoke_row
  revoke_where-IsRotated m h = record {
    unique = revoke_where-IsUnique m h.unique;
    parents = λ id par t at is_parent. elim (Option-cases (lookup id m)) [
      | inl q ↦ absurd (ground (arith, at, q, lookup-revoke_where id m))
      | inr (u, q) ↦
          let t_is : revoked_if p now id u ≡ t = ground (arith, at, q, lookup-revoke_where id m) in
          let same : u.parent_id ≡ some par = ground (arith, t_is, is_parent) in
          let (r, there, dead) = h.parents id par u q same in
          (
            revoked_if p now par r,
            lookup-revoke_where par m ∙ ap (updated par) there,
            revoked_if_dead par r dead,
          )
    ];
  }

find_hash-lookup :
    (hash : Bytes) (m : Tokens) (id : Text) (t : RefreshToken)
    → IsUnique m
    → find_hash hash m ≡ some (id, t)
    → lookup id m ≡ some t
unfolding find_hash lookup
find_hash-lookup hash [] id t u e = cc
find_hash-lookup hash ((j, r) ∷ m) id t u e = elim (Bool-cases (text_eq r.token_hash hash)) [
  | inl q ↦ ground (arith, e, q, text_eq_refl id)
  | inr q ↦
      let rest : lookup id m ≡ some t = find_hash-lookup hash m id t u.1 (ground (arith, e, q)) in
      ground (arith, rest, u.0, text_eq_iff j id)
]

still_there :
    (k : Text) (row : RefreshToken) (m : Tokens)
    → lookup k m ≡ none
    → (p : Text) (q : RefreshToken) → lookup p m ≡ some q
    → lookup p (insert k row m) ≡ some q
still_there k row m fresh p q there =
    ground (arith, fresh, there, text_eq_iff k p, lookup-insert k p row m)

-- A child of a revoked token.
insert-IsRotated :
    (m : Tokens) (k par : Text) (row q : RefreshToken)
    → IsRotated m
    → lookup k m ≡ none
    → row.parent_id ≡ some par
    → lookup par m ≡ some q
    → is_live q ≡ false
    → IsRotated (insert k row m)
insert-IsRotated m k par row q h fresh is_child there dead = record {
  unique = insert-IsUnique k row m h.unique;
  parents = λ id p t at is_parent. elim (Bool-cases (text_eq k id)) [
    | inl e ↦
        let same : row ≡ t = ground (arith, at, e, lookup-insert k id row m) in
        let par_is : par ≡ p = ground (arith, same, is_parent, is_child) in
        (q, still_there k row m fresh p q (subst (λ x. lookup x m ≡ some q) par_is there), dead)
    | inr e ↦
        let old : lookup id m ≡ some t = ground (arith, at, e, lookup-insert k id row m) in
        let (r, found, dead') = h.parents id p t old is_parent in
        (r, still_there k row m fresh p r found, dead')
  ];
}

mint_session_failed :
    (e : Env) (m : Tokens) (account device : Text) (parent : Option Text) (x : ApiError)
    → (mint_session e m account device parent).1 ≡ err x
    → (mint_session e m account device parent).0 ≡ m
unfolding mint_session
mint_session_failed e m account device parent x failed = ground (arith, failed)

module _ (e : Env) (s : Service) (ip tok : Text) (h : IsRotated s.tokens) where
  -- The table of a rotation, behind the checks.
  minted-IsRotated :
      (id : Text) (t : RefreshToken)
      → lookup id s.tokens ≡ some t
      → IsRotated (mint_session e (revoked_one e s id) t.account t.device (some id)).0
  minted-IsRotated id t there =
      let revoked = revoke_where-IsRotated (λ i r. text_eq i id) e.now s.tokens h in
      let parent : lookup id (revoked_one e s id) ≡ some (revoke_row e.now t) =
        lookup-revoke_where (λ i r. text_eq i id) e.now id s.tokens
        ∙ (ap (updated (λ i r. text_eq i id) e.now id) there
            ∙ ap (λ b. some (if b then revoke_row e.now t else t)) (text_eq_refl id)) in
      elim (Result-cases (mint_session e (revoked_one e s id) t.account t.device (some id)).1) [
        | inl (x, failed) ↦
            subst IsRotated
              (sym
                (mint_session_failed e (revoked_one e s id) t.account t.device (some id) x failed))
              revoked
        | inr (resp, done) ↦
            let (absent, table) =
              mint_session_inv e (revoked_one e s id) t.account t.device (some id) resp done in
            subst IsRotated (sym table) (
              insert-IsRotated (revoked_one e s id) e.fresh_id id
                (new_row e t.account t.device (some id)) (revoke_row e.now t) revoked absent refl
                parent (unfold revoke_row in refl))
      ]

  rotate-IsRotated : IsRotated (rotate e s ip tok).0.tokens
  unfolding rotate reuse_detected
  rotate-IsRotated = elim (Option-cases (find_hash (e.sha256 tok) s.tokens)) [
    | inl p ↦ subst IsRotated (ground (arith, p)) h
    | inr ((id, t), p) ↦ elim (Bool-cases (is_live t)) [
      | inr q ↦
          subst IsRotated (ground (arith, p, q))
            (revoke_where-IsRotated (λ i r. is_of t.account t.device r) e.now s.tokens h)
      | inl q ↦ elim (Bool-cases (ltb t.expires_at e.now)) [
        | inl r ↦ subst IsRotated (ground (arith, p, q, r)) h
        | inr r ↦
            subst IsRotated (ground (arith, p, q, r))
              (minted-IsRotated id t (find_hash-lookup (e.sha256 tok) s.tokens id t h.unique p))
      ]
    ]
  ]

-- Where keys are unique and every token with a successor is revoked, this holds after any refresh
-- too, whatever the guard, the token and the draws are.
pub auth_refresh-IsRotated :
    (e : Env) (s : Service) (ip tok : Text)
    → IsRotated s.tokens
    → IsRotated (auth_refresh e s ip tok).0.tokens
unfolding auth_refresh
auth_refresh-IsRotated e s ip tok h =
    let g = guard-tokens e s ip (codes "auth_refresh") 30 60 in
    let kept : IsRotated (guarded e s ip).0.tokens = subst IsRotated (sym g) h in
    elim (Result-cases (guarded e s ip).1) [
      | inl (x, p) ↦ subst IsRotated (ground (arith, p)) kept
      | inr (caller, p) ↦
          subst IsRotated (ground (arith, p))
            (rotate-IsRotated e (guarded e s ip).0 caller tok kept)
    ]

pub auth_logout-IsRotated :
    (e : Env) (s : Service) (a : Auth) → IsRotated s.tokens → IsRotated (auth_logout e s a).tokens
unfolding auth_logout
auth_logout-IsRotated e s a h =
    revoke_where-IsRotated (λ id r. is_of a.account a.device r && is_live r) e.now s.tokens h
