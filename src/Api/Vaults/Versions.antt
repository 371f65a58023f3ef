-- ===== src/Api/Vaults/Versions.antt =====
-- What an answer to `PUT /vault` says of the account's document.
use vpn_password_manager.Base.{
  ℕ, ◌+◌, ℤ, pos, Text, text_eq, true, Option, none, some, ◌≡◌, inl, inr, arith, Option-cases,
  if◌then◌else◌,
}
use vpn_password_manager.Base.Assoc.{lookup, lookup-insert}
use vpn_password_manager.Base.Bytes.{Bytes}
use vpn_password_manager.Error.{ok, err, Result-cases}
use vpn_password_manager.Vault.Document.{Base64}
use vpn_password_manager.Api.Error.{ApiError, version_conflict}
use vpn_password_manager.Api.Vaults.{
  Auth, VaultRow, Db, Write, insert_first, update_from, require_approved_device, choose_write,
  vault_check, put_row, vault_write, vault_put, size_ok,
}

abbrev pub row_at : Text → Db → Option VaultRow
row_at account db = lookup account db.vaults

-- 0 where the account has no row.
abbrev pub version_of : Option VaultRow → ℕ
version_of row = elim row [ none ↦ 0 | some r ↦ r.version ]

abbrev pub version_at : Text → Db → ℕ
version_at account db = version_of (row_at account db)

pub row_at-put_row :
    (db : Db) (a : Auth) (n : ℕ) (ct : Bytes) (account : Text)
    → row_at account (put_row db a n ct) ≡ (
        if text_eq a.account account
        then some (record { version = n; ciphertext = ct; updated_by = a.device })
        else row_at account db)
unfolding put_row
row_at-put_row db a n ct account = lookup-insert a.account account _ db.vaults

-- What a check that passes has found.
pub record Passed (b64 : Base64) (db : Db) (a : Auth) (if_match : Option ℤ) (text : Text)
    (ct : Bytes) (w : Write) : Type 0 where
  pub header : if_match ≡ some (pos (version_at a.account db))
  pub body : b64.decode text ≡ some ct
  pub size : size_ok ct ≡ true
  pub chosen :
      w ≡ elim (row_at a.account db) [ none ↦ insert_first | some row ↦ update_from row.version ]

choose_write_inv :
    (row : Option VaultRow) (n : ℤ) (w : Write)
    → choose_write row n ≡ ok w
    → (n ≡ pos (elim row [ none ↦ 0 | some r ↦ r.version ]))
      × (w ≡ elim row [ none ↦ insert_first | some r ↦ update_from r.version ])
unfolding choose_write
choose_write_inv row n w e = ground (arith)

pub vault_check_inv :
    (b64 : Base64) (db : Db) (a : Auth) (if_match : Option ℤ) (text ct : Text) (w : Write)
    → vault_check b64 db a if_match text ≡ ok (ct, w)
    → Passed b64 db a if_match text ct w
unfolding vault_check require_approved_device
vault_check_inv b64 db a if_match text ct w e = elim (Option-cases (lookup a.device db.devices)) [
  | inl p ↦ absurd (ground (arith, e, p))
  | inr (status, p) ↦ elim (Option-cases if_match) [
    | inl q ↦ absurd (ground (arith, e, p, q))
    | inr (n, q) ↦ elim (Option-cases (b64.decode text)) [
      | inl r ↦ absurd (ground (arith, e, p, q, r))
      | inr (bytes, r) ↦ elim (Result-cases (choose_write (lookup a.account db.vaults) n)) [
        | inl (x, s) ↦ absurd (ground (arith, e, p, q, r, s))
        | inr (u, s) ↦
            let (same, chosen) = choose_write_inv (lookup a.account db.vaults) n u s in
            record {
              header = ground (arith, q, same);
              body = ground (arith, e, p, q, r, s);
              size = ground (arith, e, p, q, r, s);
              chosen = ground (arith, e, p, q, r, s, chosen);
            }
      ]
    ]
  ]
]

-- The document of the account is the one that was sent, at the next version.
pub record Accepted (b64 : Base64) (db : Db) (a : Auth) (if_match : Option ℤ) (text : Text)
    (after : Db) (n : ℕ) : Type 0 where
  pub next : n ≡ version_at a.account db + 1
  pub header : if_match ≡ some (pos (version_at a.account db))
  pub ct : Bytes
  pub body : b64.decode text ≡ some ct
  pub after_is : after ≡ put_row db a n ct

-- A put that is accepted named the version that the account's document had, and the document sent
-- stands in its place at the next version.
pub vault_put-Accepted :
    (b64 : Base64) (db after : Db) (a : Auth) (if_match : Option ℤ) (text : Text) (n : ℕ)
    → vault_put b64 db a if_match text ≡ (after, ok n)
    → Accepted b64 db a if_match text after n
unfolding vault_put vault_write
vault_put-Accepted b64 db after a if_match text n e =
    elim (Result-cases (vault_check b64 db a if_match text)) [
      | inl (x, p) ↦ absurd (ground (arith, e, p))
      | inr ((ct, w), p) ↦
          let found = vault_check_inv b64 db a if_match text ct w p in
          elim (Option-cases (row_at a.account db)) [
            | inl q ↦ record {
              next = ground (arith, e, p, q, found.chosen);
              header = found.header;
              ct = ct;
              body = found.body;
              after_is = ground (arith, e, p, q, found.chosen);
            }
            | inr (row, q) ↦ record {
              next = ground (arith, e, p, q, found.chosen);
              header = found.header;
              ct = ct;
              body = found.body;
              after_is = ground (arith, e, p, q, found.chosen);
            }
          ]
    ]

-- A put that is refused changes nothing.
pub vault_put_refused :
    (b64 : Base64) (db : Db) (a : Auth) (if_match : Option ℤ) (text : Text) (x : ApiError)
    → (vault_put b64 db a if_match text).1 ≡ err x
    → (vault_put b64 db a if_match text).0 ≡ db
unfolding vault_put vault_write
vault_put_refused b64 db a if_match text x e =
    elim (Result-cases (vault_check b64 db a if_match text)) [
      | inl (y, p) ↦ rw (p, vault_put)
      | inr ((ct, w), p) ↦
          let found = vault_check_inv b64 db a if_match text ct w p in
          elim (Option-cases (row_at a.account db)) [
            | inl q ↦ absurd (ground (arith, e, p, q, found.chosen))
            | inr (row, q) ↦ absurd (ground (arith, e, p, q, found.chosen))
          ]
    ]

choose_write_conflict :
    (row : Option VaultRow) (k : ℤ) (n : ℕ)
    → choose_write row k ≡ err (version_conflict n)
    → n ≡ version_of row
unfolding choose_write
choose_write_conflict row k n e = ground arith

vault_write_conflict :
    (db : Db) (a : Auth) (ct : Bytes) (w : Write) (n : ℕ)
    → (vault_write db a ct w).1 ≡ err (version_conflict n)
    → ⊥
unfolding vault_write
vault_write_conflict db a ct insert_first n e = ground arith
vault_write_conflict db a ct (update_from v) n e = ground arith

-- A put that is refused for its version is answered the version there is.
pub vault_put_conflict :
    (b64 : Base64) (db : Db) (a : Auth) (if_match : Option ℤ) (text : Text) (n : ℕ)
    → (vault_put b64 db a if_match text).1 ≡ err (version_conflict n)
    → n ≡ version_at a.account db
unfolding vault_put vault_check require_approved_device
vault_put_conflict b64 db a if_match text n e = elim (Option-cases (lookup a.device db.devices)) [
  | inl p ↦ absurd (ground (arith, e, p))
  | inr (status, p) ↦ elim (Option-cases if_match) [
    | inl q ↦ absurd (ground (arith, e, p, q))
    | inr (k, q) ↦ elim (Option-cases (b64.decode text)) [
      | inl r ↦ absurd (ground (arith, e, p, q, r))
      | inr (bytes, r) ↦ elim (Result-cases (choose_write (row_at a.account db) k)) [
        | inl (x, s) ↦
            choose_write_conflict (row_at a.account db) k n (ground (arith, e, p, q, r, s))
        | inr (w, s) ↦ absurd (ground (arith, e, p, q, r, s, vault_write_conflict db a bytes w n))
      ]
    ]
  ]
]
