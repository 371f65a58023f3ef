-- ===== src/Sync/Answers.antt =====
-- What the device may conclude from the answer to one of its requests.
use vpn_password_manager.Base.{
  ℕ, [], ◌∷◌, List, pos, Option, none, some, ◌≡◌, refl, sym, ap, ◌∙◌, ◌⊎◌, inl, inr, arith,
  Option-cases,
}
use vpn_password_manager.Base.Bytes.{Bytes}
use vpn_password_manager.Error.{Result, ok, err, Result-cases}
use vpn_password_manager.Vault.Document.{Base64}
use vpn_password_manager.Api.Error.{ApiError, version_conflict}
use vpn_password_manager.Api.Vaults.{Auth, Db, require_approved_device, vault_get, vault_put}
use vpn_password_manager.Api.Vaults.Serial.{Later, handle_puts-Later}
use vpn_password_manager.Api.Vaults.Versions.{
  row_at, version_at, vault_put_refused, vault_put_conflict,
}
use vpn_password_manager.Sync.{
  Fate, delivered, request_lost, reply_lost, Turn, World, PutResult, accepted, conflict, put_result,
  take_turn, next_turn, get_result, get_vault, put_vault,
}

Fate-cases : (f : Fate) → (f ≡ delivered) ⊎ (f ≡ request_lost) ⊎ (f ≡ reply_lost)
Fate-cases delivered = inl refl
Fate-cases request_lost = inr (inl refl)
Fate-cases reply_lost = inr (inr refl)

pub put_result_accepted :
    (x : Result ApiError ℕ) (n : ℕ) → put_result x ≡ ok (accepted n) → x ≡ ok n
unfolding put_result
put_result_accepted x n e = ground arith

put_result_conflict :
    (x : Result ApiError ℕ) (n : ℕ) → put_result x ≡ ok (conflict n) → x ≡ err (version_conflict n)
unfolding put_result
put_result_conflict x n e = ground arith

module _ (b64 : Base64) (a : Auth) where
  -- The table when the next request arrives.
  abbrev pub arrival : World → Db
  arrival w = (next_turn b64 a w).1.db

  take_turn-Later : (db : Db) (ts : List Turn) → Later a.account db (take_turn b64 a db ts).1.db
  unfolding take_turn
  take_turn-Later db [] = (omega arith, λ e. refl)
  take_turn-Later db (t ∷ ts) = handle_puts-Later b64 a.account t.others db

  pub arrival-Later : (w : World) → Later a.account w.db (arrival w)
  unfolding next_turn
  arrival-Later w = take_turn-Later w.db w.turns

  -- What an answered PUT did.
  pub put_vault_inv :
      (w now : World) (k : ℕ) (blob : Bytes) (x : PutResult)
      → put_vault b64 a w k blob ≡ (now, ok x)
      → (now.db ≡ (vault_put b64 (arrival w) a (some (pos k)) (b64.encode blob)).0)
        × (put_result (vault_put b64 (arrival w) a (some (pos k)) (b64.encode blob)).1 ≡ ok x)
  unfolding put_vault
  put_vault_inv w now k blob x e = elim (Fate-cases (next_turn b64 a w).0) [
    | inl p ↦ ground (arith, e, p)
    | inr (inl p) ↦ absurd (ground (arith, e, p))
    | inr (inr p) ↦ absurd (ground (arith, e, p))
  ]

  pub conflict_version :
      (w now : World) (k n : ℕ) (blob : Bytes)
      → put_vault b64 a w k blob ≡ (now, ok (conflict n))
      → n ≡ version_at a.account now.db
  conflict_version w now k n blob e =
      let (db, result) = put_vault_inv w now k blob (conflict n) e in
      let refused = put_result_conflict _ n result in
      vault_put_conflict b64 (arrival w) a (some (pos k)) (b64.encode blob) n refused
      ∙ ap (version_at a.account) (
          sym (
            db
            ∙ vault_put_refused b64 (arrival w) a (some (pos k)) (b64.encode blob)
                (version_conflict n) refused))

  -- What an answered GET found.
  pub get_vault_inv :
      (w now : World) (got : Option (ℕ × Bytes))
      → get_vault b64 a w ≡ (now, ok got)
      → (now.db ≡ arrival w)
        × (got ≡ elim (row_at a.account (arrival w)) [
          | none ↦ none
          | some row ↦ some (row.version, row.ciphertext)
        ])
  unfolding get_vault get_result vault_get
  get_vault_inv w now got e = elim (Fate-cases (next_turn b64 a w).0) [
    | inl p ↦ elim (Result-cases (require_approved_device (arrival w) a.device)) [
      | inl (x, q) ↦ absurd (ground (arith, e, p, q))
      | inr (u, q) ↦ elim (Option-cases (row_at a.account (arrival w))) [
        | inl r ↦ ground (arith, e, p, q, r)
        | inr (row, r) ↦ ground (arith, e, p, q, r, b64.decode_encode row.ciphertext)
      ]
    ]
    | inr (inl p) ↦ absurd (ground (arith, e, p))
    | inr (inr p) ↦ absurd (ground (arith, e, p))
  ]
