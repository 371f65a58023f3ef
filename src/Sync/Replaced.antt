-- ===== src/Sync/Replaced.antt =====
-- What the document is that a sync replaces, whatever other devices do in between.
use vpn_password_manager.Base.{
  ℕ, zero, suc, ◌+◌, pos, none, some, ◌≡◌, refl, sym, ap, ◌∙◌, subst, inl, inr, arith, true, false,
  Bool, text_eq_refl,
}
use vpn_password_manager.Base.Bytes.{Bytes}
use vpn_password_manager.Error.{ok, Result-cases}
use vpn_password_manager.Crypto.{Primitives}
use vpn_password_manager.Vault.Document.{Base64, DocumentCodec, encode_sync_blob}
use vpn_password_manager.Vault.Store.{LocalVault, to_document}
use vpn_password_manager.Api.Vaults.{Auth, Db, vault_put}
use vpn_password_manager.Api.Vaults.Versions.{
  row_at, row_at-put_row, version_at, vault_put-Accepted,
}
use vpn_password_manager.Sync.{
  World, accepted, conflict, put_vault, pull, push_attempts, push_document, push_settings,
  sync_once, SyncNowOut,
}
use vpn_password_manager.Sync.Answers.{arrival, arrival-Later, put_vault_inv, put_result_accepted}
use vpn_password_manager.Sync.Based.{
  Based, Knows, Knows-Later, pull_inv, found-Knows, absent-Knows, conflict-Knows,
}

module _ (b64 : Base64) (a : Auth) (c : Primitives) (codec : DocumentCodec) (vk : Bytes)
    (nonce : ℕ → Bytes) (settings : LocalVault → LocalVault) where
  -- What a push that succeeds leaves: the table after a put that put the vault's own document in
  -- place of one that the vault is based on.
  pub record Replaced (after : Db) (v : LocalVault) (n : ℕ) : Type 0 where
    pub before : Db
    pub drawn : Bytes
    pub blob : Bytes
    pub encoded : encode_sync_blob c codec drawn vk (to_document b64 v) n ≡ ok blob
    pub put :
        vault_put b64 before a (some (pos (version_at a.account before))) (b64.encode blob)
        ≡ (after, ok n)
    pub held :
        row_at a.account after
        ≡ some (record { version = n; ciphertext = blob; updated_by = a.device })
    pub based : Based b64 a c codec vk nonce settings v (row_at a.account before)

  -- The put of an attempt, accepted.
  put-Replaced :
      (w now : World) (v : LocalVault) (current n : ℕ) (drawn blob : Bytes)
      → Knows b64 a c codec vk nonce settings w.db v current
      → encode_sync_blob c codec drawn vk (to_document b64 v) (current + 1) ≡ ok blob
      → put_vault b64 a w current blob ≡ (now, ok (accepted n))
      → Replaced now.db v n
  put-Replaced w now v current n drawn blob k p q =
      let (db, result) = put_vault_inv b64 a w now current blob (accepted n) q in
      let done = put_result_accepted _ n result in
      let put : vault_put b64 (arrival b64 a w) a (some (pos current)) (b64.encode blob)
          ≡ (now.db, ok n) =
        ground (arith, db, done) in
      let swap =
        vault_put-Accepted b64 (arrival b64 a w) now.db a (some (pos current)) (b64.encode blob) n
          put in
      let at : current ≡ version_at a.account (arrival b64 a w) = ground (arith, swap.header) in
      let known =
        Knows-Later b64 a c codec vk nonce settings w.db (arrival b64 a w) v current
          (arrival-Later b64 a w) k in
      record {
        before = arrival b64 a w;
        drawn = drawn;
        blob = blob;
        encoded =
            subst (λ x. encode_sync_blob c codec drawn vk (to_document b64 v) x ≡ ok blob)
              (ap (λ x. x + 1) at ∙ sym swap.next) p;
        put =
            subst
              (λ x.
                vault_put b64 (arrival b64 a w) a (some (pos x)) (b64.encode blob) ≡ (now.db, ok n))
              at put;
        held = ground (
          arith,
          swap.after_is,
          swap.body,
          b64.decode_encode blob,
          text_eq_refl a.account,
          row_at-put_row (arrival b64 a w) a n swap.ct a.account,
        );
        based = known.1 (sym at);
      }

  push_attempts-Replaced :
      (left : ℕ) (w : World) (v : LocalVault) (current : ℕ) (now : World) (after : LocalVault)
      (n : ℕ)
      → Knows b64 a c codec vk nonce settings w.db v current
      → push_attempts b64 a c codec vk nonce left w v current ≡ (now, (after, ok n))
      → Replaced now.db after n
  unfolding push_attempts
  push_attempts-Replaced zero w v current now after n k e = absurd (ground (arith, e))
  push_attempts-Replaced (suc left) w v current now after n k e =
      elim (Result-cases
        (encode_sync_blob c codec (nonce left) vk (to_document b64 v) (current + 1))) [
          | inl (x, p) ↦ absurd (ground (arith, e, p))
          | inr (blob, p) ↦ elim (Result-cases (put_vault b64 a w current blob).1) [
            | inl (x, q) ↦ absurd (ground (arith, e, p, q))
            | inr (accepted m, q) ↦
                let same : (now ≡ (put_vault b64 a w current blob).0) × (m ≡ n) =
                  ground (arith, e, p, q) in
                let kept : v ≡ after = ground (arith, e, p, q) in
                subst (λ x. Replaced now.db x n) kept
                  (put-Replaced w now v current n (nonce left) blob k p (ground (arith, q, same)))
            | inr (conflict m, q) ↦
                let now' = (put_vault b64 a w current blob).0 in
                let pulled = pull b64 a c codec vk nonce now' v in
                elim (Result-cases pulled.1.1) [
                  | inl (x, r) ↦ absurd (ground (arith, e, p, q, r))
                  | inr (none, r) ↦
                      push_attempts-Replaced left pulled.0 pulled.1.0 m now after n
                        (conflict-Knows b64 a c codec vk nonce settings w now' pulled.0 v pulled.1.0
                          current m blob none (ground (arith, q)) (ground (arith, r)))
                        (ground (arith, e, p, q, r))
                  | inr (some k', r) ↦
                      push_attempts-Replaced left pulled.0 pulled.1.0 k' now after n
                        (conflict-Knows b64 a c codec vk nonce settings w now' pulled.0 v pulled.1.0
                          current m blob (some k') (ground (arith, q)) (ground (arith, r)))
                        (ground (arith, e, p, q, r))
                ]
          ]
        ]

  push_settings_inv :
      (w now : World) (v after : LocalVault) (pulled : Bool) (current : ℕ) (out : SyncNowOut)
      → push_settings b64 a c codec vk nonce settings w v pulled current ≡ (now, (after, ok out))
      → push_attempts b64 a c codec vk nonce 2 w (settings v) current
        ≡ (now, (after, ok out.version))
  unfolding push_settings push_document
  push_settings_inv w now v after pulled current out e =
      elim (Result-cases (push_attempts b64 a c codec vk nonce 2 w (settings v) current).1.1) [
        | inl (x, p) ↦ absurd (ground (arith, e, p))
        | inr (n, p) ↦ ground (arith, e, p)
      ]

  -- If a sync succeeds, whatever other devices put before each of its requests and whichever of
  -- the requests were lost, then the service holds the document of this device's vault, sealed
  -- for the version that is reported, and it holds it in place of no document or of one that was
  -- decoded and merged into that vault before.
  pub sync_once-Replaced :
      (w now : World) (v after : LocalVault) (out : SyncNowOut)
      → sync_once b64 a c codec vk nonce settings w v ≡ (now, (after, ok out))
      → Replaced now.db after out.version
  unfolding sync_once
  sync_once-Replaced w now v after out e =
      let pulled = pull b64 a c codec vk nonce w v in
      elim (Result-cases pulled.1.1) [
        | inl (x, p) ↦ absurd (ground (arith, e, p))
        | inr (none, p) ↦
            let (db, nothing) =
              pull_inv b64 a c codec vk nonce settings w pulled.0 v pulled.1.0 none
                (ground (arith, p)) in
            push_attempts-Replaced 2 pulled.0 (settings pulled.1.0) 0 now after out.version
              (absent-Knows b64 a c codec vk nonce settings pulled.0.db (settings pulled.1.0)
                nothing)
              (push_settings_inv pulled.0 now pulled.1.0 after false 0 out (ground (arith, e, p)))
        | inr (some k, p) ↦
            let (db, (row, at, version, merged)) =
              pull_inv b64 a c codec vk nonce settings w pulled.0 v pulled.1.0 (some k)
                (ground (arith, p)) in
            push_attempts-Replaced 2 pulled.0 (settings pulled.1.0) k now after out.version
              (found-Knows b64 a c codec vk nonce settings pulled.0.db (settings pulled.1.0) row k
                at version (inr (pulled.1.0, merged, refl)))
              (push_settings_inv pulled.0 now pulled.1.0 after true k out (ground (arith, e, p)))
      ]
