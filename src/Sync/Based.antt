-- ===== src/Sync/Based.antt =====
-- That the vault has the service's document merged, while that document is at the version known.
use vpn_password_manager.Base.{
  ℕ, ◌≤◌, Option, none, some, ◌≡◌, refl, sym, ap, ◌∙◌, subst, ◌⊎◌, inl, inr, arith, Option-cases,
}
use vpn_password_manager.Base.Bytes.{Bytes}
use vpn_password_manager.Error.{ok, Result-cases}
use vpn_password_manager.Crypto.{Primitives}
use vpn_password_manager.Vault.Document.{Base64, VaultDocument, DocumentCodec, decode_sync_blob}
use vpn_password_manager.Vault.Store.{LocalVault, MergeReport, merge}
use vpn_password_manager.Api.Vaults.{Auth, VaultRow, Db}
use vpn_password_manager.Api.Vaults.Serial.{Later}
use vpn_password_manager.Api.Vaults.Versions.{row_at, version_of, version_at}
use vpn_password_manager.Sync.{World, conflict, get_vault, put_vault, merge_pulled, pull}
use vpn_password_manager.Sync.Answers.{arrival, arrival-Later, get_vault_inv, conflict_version}

module _ (b64 : Base64) (a : Auth) (c : Primitives) (codec : DocumentCodec) (vk : Bytes)
    (nonce : ℕ → Bytes) (settings : LocalVault → LocalVault) where
  -- The vault is what merging this document into some vault left.
  pub record MergedFrom (v : LocalVault) (row : VaultRow) : Type 0 where
    pub before : LocalVault
    pub remote : VaultDocument
    pub report : MergeReport
    pub decoded : decode_sync_blob c codec vk row.ciphertext row.version ≡ ok remote
    pub merged : (merge b64 before remote).1 ≡ ok report
    pub now : v ≡ (merge b64 before remote).0

  -- There is no document, or the vault has it merged, and perhaps the settings applied then.
  abbrev pub Based : LocalVault → Option VaultRow → Type 0
  Based v none = Unit
  Based v (some row) = MergedFrom v row ⊎ ((u : LocalVault) × MergedFrom u row × (v ≡ settings u))

  -- The table has this version or a later one; while it has this version, the vault contains
  -- the document that stands there.
  abbrev pub Knows : Db → LocalVault → ℕ → Type 0
  Knows db v k =
      (k ≤ version_at a.account db) × (version_at a.account db ≡ k → Based v (row_at a.account db))

  pub Knows-Later :
      (db after : Db) (v : LocalVault) (k : ℕ)
      → Later a.account db after
      → Knows db v k
      → Knows after v k
  Knows-Later db after v k (up, fixed) (le, based) = (
    omega (arith, up, le),
    λ e.
        let same : version_at a.account db ≡ k = omega (arith, up, le, e) in
        subst (λ r. Based v r) (sym (fixed (same ∙ sym e))) (based same),
  )

  -- A pull that finds no document finds no row, and one that merges a document knows it.
  abbrev pub Pulled : Option VaultRow → LocalVault → Option ℕ → Type 0
  Pulled row v none = row ≡ none
  Pulled row v (some k) = (r : VaultRow) × (row ≡ some r) × (k ≡ r.version) × MergedFrom v r

  merge_pulled_inv :
      (row : VaultRow) (v after : LocalVault) (got : Option ℕ)
      → merge_pulled b64 a c codec vk nonce v (some (row.version, row.ciphertext)) ≡ (after, ok got)
      → Pulled (some row) after got
  unfolding merge_pulled
  merge_pulled_inv row v after got e =
      elim (Result-cases (decode_sync_blob c codec vk row.ciphertext row.version)) [
        | inl (x, p) ↦ absurd (ground (arith, e, p))
        | inr (remote, p) ↦ elim (Result-cases (merge b64 v remote).1) [
          | inl (x, q) ↦ absurd (ground (arith, e, p, q))
          | inr (report, q) ↦
              let got_is : got ≡ some row.version = ground (arith, e, p, q) in
              let after_is : after ≡ (merge b64 v remote).0 = ground (arith, e, p, q) in
              rw got_is (
                row,
                refl,
                refl,
                record {
                  before = v;
                  remote = remote;
                  report = report;
                  decoded = p;
                  merged = q;
                  now = after_is;
                },
              )
        ]
      ]

  pub pull_inv :
      (w now : World) (v after : LocalVault) (got : Option ℕ)
      → pull b64 a c codec vk nonce w v ≡ (now, (after, ok got))
      → (now.db ≡ arrival b64 a w) × Pulled (row_at a.account now.db) after got
  unfolding pull merge_pulled
  pull_inv w now v after got e = elim (Result-cases (get_vault b64 a w).1) [
    | inl (x, p) ↦ absurd (ground (arith, e, p))
    | inr (found, p) ↦
        let q : get_vault b64 a w ≡ (now, ok found) = ground (arith, e, p) in
        let (db, found_is) = get_vault_inv b64 a w now found q in
        let rest : merge_pulled b64 a c codec vk nonce v found ≡ (after, ok got) =
          ground (arith, e, p) in
        elim (Option-cases (row_at a.account (arrival b64 a w))) [
          | inl r ↦
              let nothing : found ≡ none = ground (arith, found_is, r) in
              let got_is : got ≡ none = ground (arith, rest, nothing) in
              (db, rw got_is (ap (row_at a.account) db ∙ r))
          | inr (row, r) ↦
              let there : found ≡ some (row.version, row.ciphertext) =
                ground (arith, found_is, r) in
              (
                db,
                subst (λ x. Pulled x after got) (sym (ap (row_at a.account) db ∙ r))
                    (merge_pulled_inv row v after got (rw there at rest)),
              )
        ]
  ]

  pub found-Knows :
      (db : Db) (v : LocalVault) (row : VaultRow) (k : ℕ)
      → row_at a.account db ≡ some row
      → k ≡ row.version
      → Based v (some row)
      → Knows db v k
  found-Knows db v row k at version based =
      let here : version_at a.account db ≡ row.version = ap version_of at in
      (omega (arith, here, version), λ e. subst (λ x. Based v x) (sym at) based)

  pub absent-Knows : (db : Db) (v : LocalVault) → row_at a.account db ≡ none → Knows db v 0
  absent-Knows db v at = (omega arith, λ e. subst (λ x. Based v x) (sym at) tt)

  -- After a conflict, the pull knows the document that the next attempt names.
  pub conflict-Knows :
      (w now then : World) (v after : LocalVault) (current m : ℕ) (blob : Bytes) (got : Option ℕ)
      → put_vault b64 a w current blob ≡ (now, ok (conflict m))
      → pull b64 a c codec vk nonce now v ≡ (then, (after, ok got))
      → Knows then.db after (elim got [ none ↦ m | some k ↦ k ])
  conflict-Knows w now then v after current m blob none q r =
      let (db, nothing) = pull_inv now then v after none r in
      let (up, fixed) = arrival-Later b64 a now in
      let answer = conflict_version b64 a w now current m blob q in
      let gone : version_at a.account then.db ≡ 0 = ap version_of nothing in
      let same : version_at a.account (arrival b64 a now) ≡ version_at a.account then.db =
        ap (version_at a.account) (sym db) in
      let zero_is : m ≡ 0 = omega (arith, answer, gone, same, up) in
      subst (λ x. Knows then.db after x) (sym zero_is) (absent-Knows then.db after nothing)
  conflict-Knows w now then v after current m blob (some k) q r =
      let (db, (row, at, version, merged)) = pull_inv now then v after (some k) r in
      found-Knows then.db after row k at version (inl merged)
