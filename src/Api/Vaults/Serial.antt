-- ===== src/Api/Vaults/Serial.antt =====
-- The version of an account's document over requests that run one after another.
use vpn_password_manager.Base.{
  ℕ, ◌+◌, ◌≤◌, Text, text_eq, text_eq_iff, true, false, List, [], ◌∷◌, ◌≡◌, refl, sym, ap, ◌∙◌, inl,
  inr, ◌⊎◌, arith, Bool-cases, if◌then◌else◌,
}
use vpn_password_manager.Error.{Result, ok, err, Result-cases, ok-err}
use vpn_password_manager.Vault.Document.{Base64}
use vpn_password_manager.Api.Error.{ApiError}
use vpn_password_manager.Api.Vaults.{Db, vault_put, Request, handle_put, handle_puts}
use vpn_password_manager.Api.Vaults.Versions.{
  row_at, version_of, version_at, row_at-put_row, vault_put-Accepted, vault_put_refused,
}

-- What one request does to the document of an account: nothing, or it is the account's own request
-- and the version goes up by one.
module _ (b64 : Base64) (account : Text) where
  handle_put_cases :
      (db : Db) (r : Request)
      → ((row_at account (handle_put b64 db r).0 ≡ row_at account db)
          × ((n : ℕ) → (handle_put b64 db r).1 ≡ ok n → text_eq r.auth.account account ≡ false))
        ⊎ ((text_eq r.auth.account account ≡ true)
            × ((handle_put b64 db r).1 ≡ ok (version_at account db + 1))
            × (version_at account (handle_put b64 db r).0 ≡ version_at account db + 1))
  unfolding handle_put
  handle_put_cases db r =
      elim (Result-cases (vault_put b64 db r.auth r.if_match r.ciphertext_b64).1) [
        | inl (x, p) ↦ inl (
          ap (row_at account) (vault_put_refused b64 db r.auth r.if_match r.ciphertext_b64 x p),
          λ n q. absurd (ok-err {e = x} (sym q ∙ p)),
        )
        | inr (n, p) ↦
            let got =
              vault_put-Accepted b64 db (vault_put b64 db r.auth r.if_match r.ciphertext_b64).0
                r.auth r.if_match r.ciphertext_b64 n
                (ap (λ x. ((vault_put b64 db r.auth r.if_match r.ciphertext_b64).0, x)) p) in
            let there = row_at-put_row db r.auth n got.ct account in
            elim (Bool-cases (text_eq r.auth.account account)) [
              | inl same ↦ inr (
                same,
                ground (arith, p, got.next, same, text_eq_iff r.auth.account account),
                ground (
                  arith,
                  got.next,
                  got.after_is,
                  there,
                  same,
                  text_eq_iff r.auth.account account,
                ),
              )
              | inr other ↦ inl (ground (arith, got.after_is, there, other), λ m q. other)
            ]
      ]

  -- The versions that the account's requests were answered.
  unfoldable pub versions : List (Request × Result ApiError ℕ) → List ℕ
  versions [] = []
  versions ((r, x) ∷ answers) =
      let rest = versions answers in
      if text_eq r.auth.account account then elim x [ err e ↦ rest | ok n ↦ n ∷ rest ] else rest

-- From `n` to `m` in steps of one.
abbrev pub CountsUp : ℕ → List ℕ → ℕ → Type 0
CountsUp n [] m = n ≡ m
CountsUp n (x ∷ xs) m = (x ≡ n + 1) × CountsUp x xs m

-- Over any requests of any accounts, run one after another, the versions that an account's requests
-- are answered count up by one, from the version of its document before to the version after.
pub handle_puts-CountsUp :
    (b64 : Base64) (account : Text) (rs : List Request) (db : Db)
    → CountsUp
        (version_at account db)
        (versions b64 account (handle_puts b64 rs db).1)
        (version_at account (handle_puts b64 rs db).0)
unfolding handle_puts versions
handle_puts-CountsUp b64 account [] db = refl
handle_puts-CountsUp b64 account (r ∷ rs) db =
    let after = (handle_put b64 db r).0 in
    let rest = handle_puts-CountsUp b64 account rs after in
    elim (handle_put_cases b64 account db r) [
      | inr (same, answer, next) ↦ rw (same, answer) (refl, rw next at rest)
      | inl (row, not_answered) ↦ elim (Result-cases (handle_put b64 db r).1) [
        | inl (x, p) ↦ ground (arith, rest, row, p)
        | inr (n, p) ↦ ground (arith, rest, row, not_answered n p)
      ]
    ]

-- A later state of the table: a document only changes with its version, which only grows.
abbrev pub Later : Text → Db → Db → Type 0
Later account db after =
    (version_at account db ≤ version_at account after)
    × (version_at account db ≡ version_at account after → row_at account after ≡ row_at account db)

pub handle_puts-Later :
    (b64 : Base64) (account : Text) (rs : List Request) (db : Db)
    → Later account db (handle_puts b64 rs db).0
unfolding handle_puts
handle_puts-Later b64 account [] db = (omega arith, λ e. refl)
handle_puts-Later b64 account (r ∷ rs) db =
    let after = (handle_put b64 db r).0 in
    let (up, fixed) = handle_puts-Later b64 account rs after in
    elim (handle_put_cases b64 account db r) [
      | inr (same, answer, next) ↦
          (omega (arith, next, up), λ e. absurd (omega (arith, next, up, e)))
      | inl (row, n) ↦
          let v : version_at account after ≡ version_at account db = ap version_of row in
          (omega (arith, v, up), λ e. fixed (v ∙ e) ∙ row)
    ]
