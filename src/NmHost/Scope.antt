-- ===== src/NmHost/Scope.antt =====
-- The site that an rp id stands for.
use vpn_password_manager.Base.{
  ℕ, zero, suc, ◌-◌, Text, codes, text_eq, text_eq_iff, true, false, Bool, [], ◌∷◌, ◌++◌, Option,
  some, ◌≡◌, refl, ap, ◌∙◌, ◌⊎◌, inl, inr, length, take, drop, ◌&&◌, ◌||◌, Bool-cases, Option-cases,
  arith,
}
use vpn_password_manager.Vault.Session.{to_ascii_lowercase}
use vpn_password_manager.Nm.Protocol.{NmType, NmEnvelope}
use vpn_password_manager.NmHost.Requests.{
  PasskeyRegisterReq, PasskeyAssertReq, Reply, greeting, found_items, found_fields, otp_code,
  generated, saved, registered, asserted, Crates, Host, Draw, Answer, error_reply, split_scheme,
}
use vpn_password_manager.NmHost.Passkeys.{
  ends_with, gate_host, is_local, scheme_ok, rp_id_matches_origin, passkey_register, passkey_assert,
}
use vpn_password_manager.NmHost.Dispatch.{handle}
use vpn_password_manager.NmHost.Payloads.{handle_payload}

take-drop : (n : ℕ) (s : Text) → s ≡ take n s ++ drop n s
take-drop zero s = refl
take-drop (suc n) [] = refl
take-drop (suc n) (c ∷ s) = ap (◌∷◌ c) (take-drop n s)

ends_with_lem : (s t : Text) → ends_with s t ≡ true → (front : Text) × (s ≡ front ++ t)
ends_with_lem s t h =
    let same : drop (length s - length t) s ≡ t =
      ground (arith, text_eq_iff (drop (length s - length t) s) t, h) in
    (
      take (length s - length t) s,
      take-drop (length s - length t) s ∙ ap (λ x. take (length s - length t) s ++ x) same,
    )

-- The origin is a secure one, and its host is the rp id or ends with it behind a dot.
pub record InScope (rp_id origin : Text) : Type 0 where
  pub scheme : Text
  pub rest : Text
  pub parts : split_scheme origin ≡ some (scheme, rest)
  pub secure :
      (to_ascii_lowercase scheme ≡ codes "https")
      ⊎ ((to_ascii_lowercase scheme ≡ codes "http") × (is_local (gate_host rest) ≡ true))
  pub site :
      (gate_host rest ≡ to_ascii_lowercase rp_id)
      ⊎ ((sub : Text) × (gate_host rest ≡ sub ++ (b'.' ∷ to_ascii_lowercase rp_id)))

secure_of :
    (scheme host : Text)
    → scheme_ok scheme host ≡ true
    → (to_ascii_lowercase scheme ≡ codes "https")
      ⊎ ((to_ascii_lowercase scheme ≡ codes "http") × (is_local host ≡ true))
unfolding scheme_ok
secure_of scheme host h = elim (Bool-cases (text_eq (to_ascii_lowercase scheme) (codes "https"))) [
  | inl e ↦ inl ((text_eq_iff (to_ascii_lowercase scheme) (codes "https")).0 e)
  | inr e ↦
      let both : (text_eq (to_ascii_lowercase scheme) (codes "http") && is_local host) ≡ true =
        ground (arith, h, e) in
      let http : text_eq (to_ascii_lowercase scheme) (codes "http") ≡ true = ground (arith, both) in
      inr ((text_eq_iff (to_ascii_lowercase scheme) (codes "http")).0 http, ground (arith, both))
]

site_of :
    (host rp : Text)
    → (text_eq host rp || ends_with host (b'.' ∷ rp)) ≡ true
    → (host ≡ rp) ⊎ ((sub : Text) × (host ≡ sub ++ (b'.' ∷ rp)))
site_of host rp h = elim (Bool-cases (text_eq host rp)) [
  | inl e ↦ inl ((text_eq_iff host rp).0 e)
  | inr e ↦ inr (ends_with_lem host (b'.' ∷ rp) (rw e at h))
]

-- If an rp id passes the gate for an origin, it is in the scope of that origin.
pub rp_id_matches_origin-InScope :
    (rp_id origin : Text) → rp_id_matches_origin rp_id origin ≡ true → InScope rp_id origin
unfolding rp_id_matches_origin
rp_id_matches_origin-InScope rp_id origin h = elim (Option-cases (split_scheme origin)) [
  | inl p ↦ absurd (ground (arith, h, p))
  | inr ((scheme, rest), p) ↦
      let rp = to_ascii_lowercase rp_id in
      let host = gate_host rest in
      let ok : scheme_ok scheme host ≡ true = ground (arith, h, p) in
      let site : (text_eq host rp || ends_with host (b'.' ∷ rp)) ≡ true = ground (arith, h, p) in
      record {
        scheme = scheme;
        rest = rest;
        parts = p;
        secure = secure_of scheme host ok;
        site = site_of host rp site;
      }
]

module _ {Value : Type 0} (k : Crates Value) (d : Draw) (host : Host) where
  passkey_register-InScope :
      (env : NmEnvelope Value) (r : Reply)
      → (passkey_register k d (some host) env).1.payload ≡ some r
      → (req : PasskeyRegisterReq) × (k.to_register env.payload ≡ some req)
        × InScope req.rp_id req.origin
  unfolding passkey_register error_reply
  passkey_register-InScope env r e = elim (Option-cases (k.to_register env.payload)) [
    | inl p ↦ absurd (ground (arith, e, p))
    | inr (req, p) ↦ elim (Bool-cases (rp_id_matches_origin req.rp_id req.origin)) [
      | inl q ↦ (req, p, rp_id_matches_origin-InScope req.rp_id req.origin q)
      | inr q ↦ absurd (ground (arith, e, p, q))
    ]
  ]

  passkey_assert-InScope :
      (env : NmEnvelope Value) (r : Reply)
      → (passkey_assert k d (some host) env).1.payload ≡ some r
      → (req : PasskeyAssertReq) × (k.to_assert env.payload ≡ some req)
        × InScope req.rp_id req.origin
  unfolding passkey_assert error_reply
  passkey_assert-InScope env r e = elim (Option-cases (k.to_assert env.payload)) [
    | inl p ↦ absurd (ground (arith, e, p))
    | inr (req, p) ↦ elim (Bool-cases (rp_id_matches_origin req.rp_id req.origin)) [
      | inl q ↦ (req, p, rp_id_matches_origin-InScope req.rp_id req.origin q)
      | inr q ↦ absurd (ground (arith, e, p, q))
    ]
  ]

  -- The request was for an rp id in the scope of its origin.
  abbrev pub ForScope : NmEnvelope Value → Type 0
  ForScope env =
      ((req : PasskeyRegisterReq) × (k.to_register env.payload ≡ some req)
        × InScope req.rp_id req.origin)
      ⊎ ((req : PasskeyAssertReq) × (k.to_assert env.payload ≡ some req)
          × InScope req.rp_id req.origin)

  abbrev pub is_of_passkey : Reply → Bool
  is_of_passkey (registered credential attestation auth_data) = true
  is_of_passkey (asserted credential auth_data signature user) = true
  is_of_passkey other = false

  -- If an answer registers a passkey or signs with one, then the request's rp id is in the scope of
  -- its origin: the origin is https, or http on this machine, and its host is the rp id or ends
  -- with it behind a dot.
  pub handle_passkey :
      (after : Option Host) (env : NmEnvelope Value) (answer : Answer) (r : Reply)
      → handle k d (some host) env ≡ some (after, answer)
      → answer.payload ≡ some r
      → is_of_passkey r ≡ true
      → ForScope env
  unfolding handle
  handle_passkey after env answer (registered a b c) h p q =
      let kind : NmType.vault_passkey_register ≡ env.kind =
        handle_payload k d (some host) after env answer (registered a b c) h p in
      inl (passkey_register-InScope env (registered a b c) (ground (arith, h, p, kind)))
  handle_passkey after env answer (asserted a b c e) h p q =
      let kind : NmType.vault_passkey_assert ≡ env.kind =
        handle_payload k d (some host) after env answer (asserted a b c e) h p in
      inr (passkey_assert-InScope env (asserted a b c e) (ground (arith, h, p, kind)))
  handle_passkey after env answer (greeting a b c) h p q = cc
  handle_passkey after env answer (found_items its) h p q = cc
  handle_passkey after env answer (found_fields out) h p q = cc
  handle_passkey after env answer (otp_code c) h p q = cc
  handle_passkey after env answer (generated w) h p q = cc
  handle_passkey after env answer (saved action id) h p q = cc
