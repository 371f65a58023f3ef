-- ===== src/Api/Vaults.antt =====
-- services/api/src/routes.rs, the endpoints `GET /vault` and `PUT /vault`: one sealed document per
-- account, with a version that the client must name to replace it. A table is an association list;
-- the access token is checked before (Auth). A handler reads the row first and writes it in a
-- second statement, with no transaction around the two: `vault_check` is what it does up to the
-- write, `vault_write` the write. The trigger of migrations/0004_vaults.sql lets every update
-- through that adds one to the version, as this one does. The `bigint` is taken not to overflow.
pub mod Versions
pub mod Serial
pub mod Race
mod Tests
use vpn_password_manager.Base.{
  ℕ, ◌+◌, ℤ, pos, negsuc, Text, codes, text_eq, Bool, false, List, [], ◌∷◌, Option, none, some,
  length, ltb, not, ◌||◌, ◌==◌, if◌then◌else◌,
}
use vpn_password_manager.Base.Assoc.{Assoc, lookup, insert}
use vpn_password_manager.Base.Bytes.{Bytes}
use vpn_password_manager.Error.{Result, ok, err, ◌>>=◌, ◌>>◌, require, ok_or}
use vpn_password_manager.Vault.Document.{Base64}
use vpn_password_manager.Api.Error.{
  ApiError, unauthorized, forbidden, internal, bad_request, version_conflict,
}

pub record Auth : Type 0 where
  pub account : Text
  pub device : Text

pub record VaultRow : Type 0 where
  pub version : ℕ
  pub ciphertext : Bytes
  pub updated_by : Text

-- The status of each device, and the row of each account.
pub record Db : Type 0 where
  pub devices : Assoc Text
  pub vaults : Assoc VaultRow

unfoldable pub require_approved_device : Db → Text → Result ApiError (Unit {0})
require_approved_device db device = do
  status ← ok_or (lookup device db.devices) unauthorized
  require (text_eq status (codes "approved")) forbidden

unfoldable pub vault_get : Base64 → Db → Auth → Result ApiError (Option (ℕ × Text))
unfolding require_approved_device
vault_get b64 db a = do
  require_approved_device db a.device
  ok (elim (lookup a.account db.vaults) [
    | none ↦ none
    | some row ↦ some (row.version, b64.encode row.ciphertext)
  ])

-- The statement that the handler goes on to: INSERT, or UPDATE after it read this version.
pub data Write : Type 0 where
  insert_first : Write
  update_from : ℕ → Write

abbrev pub is_version : ℤ → ℕ → Bool
is_version (pos n) v = n == v
is_version (negsuc n) v = false

unfoldable pub choose_write : Option VaultRow → ℤ → Result ApiError Write
choose_write none if_match =
    if is_version if_match 0 then ok insert_first else err (version_conflict 0)
choose_write (some row) if_match =
    if is_version if_match row.version
    then ok (update_from row.version)
    else err (version_conflict row.version)

abbrev pub size_ok : Bytes → Bool
size_ok ct = not (ltb (length ct) 32 || ltb 33554432 (length ct))

-- `if_match` is the header read as an i64, none if it is missing or no number.
unfoldable pub vault_check : Base64 → Db → Auth → Option ℤ → Text → Result ApiError (Bytes × Write)
unfolding require_approved_device choose_write
vault_check b64 db a if_match ciphertext_b64 = do
  require_approved_device db a.device
  n ← ok_or if_match (bad_request "If-Match header required")
  ct ← ok_or (b64.decode ciphertext_b64) (bad_request "ciphertext_b64 not base64")
  require (size_ok ct) (bad_request "ciphertext size out of range")
  w ← choose_write (lookup a.account db.vaults) n
  ok (ct, w)

unfoldable pub put_row : Db → Auth → ℕ → Bytes → Db
put_row db a version ct = record db {
  vaults =
      insert a.account (record { version = version; ciphertext = ct; updated_by = a.device })
        db.vaults;
}

-- An INSERT beside a row with that key fails; an UPDATE of no row does nothing. The answer names
-- the version after the one that was read.
unfoldable pub vault_write : Db → Auth → Bytes → Write → Db × Result ApiError ℕ
unfolding put_row
vault_write db a ct insert_first = elim (lookup a.account db.vaults) [
  | none ↦ (put_row db a 1 ct, ok 1)
  | some row ↦ (db, err internal)
]
vault_write db a ct (update_from v) = elim (lookup a.account db.vaults) [
  | none ↦ (db, ok (v + 1))
  | some row ↦ (put_row db a (row.version + 1) ct, ok (v + 1))
]

unfoldable pub vault_put : Base64 → Db → Auth → Option ℤ → Text → Db × Result ApiError ℕ
unfolding vault_check vault_write
vault_put b64 db a if_match ciphertext_b64 = elim (vault_check b64 db a if_match ciphertext_b64) [
  | err e ↦ (db, err e)
  | ok (ct, w) ↦ vault_write db a ct w
]

pub record Request : Type 0 where
  pub auth : Auth
  pub if_match : Option ℤ
  pub ciphertext_b64 : Text

unfoldable pub handle_put : Base64 → Db → Request → Db × Result ApiError ℕ
unfolding vault_put
handle_put b64 db r = vault_put b64 db r.auth r.if_match r.ciphertext_b64

-- Requests that run one after another, and their answers.
unfoldable pub handle_puts : Base64 → List Request → Db → Db × List (Request × Result ApiError ℕ)
handle_puts b64 [] db = (db, [])
handle_puts b64 (r ∷ rs) db =
    let (after, answer) = handle_put b64 db r in
    let (last, answers) = handle_puts b64 rs after in (last, (r, answer) ∷ answers)
