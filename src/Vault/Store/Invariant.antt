-- ===== src/Vault/Store/Invariant.antt =====
-- The invariant of the two tables: primary keys, no id both live and deleted, and each row filed
-- under the id and the time of its own envelope.
use vpn_password_manager.Base.{
  ℤ, text_eq_iff, List, [], ◌∷◌, none, some, ◌≡◌, ◌∙◌, subst, sym, inl, inr, arith,
}
use vpn_password_manager.Base.Assoc.{
  lookup, lookup-insert, lookup-remove, IsUnique, insert-IsUnique, remove-IsUnique,
}
use vpn_password_manager.Base.Bytes.{Bytes}
use vpn_password_manager.Error.{CoreError, Result, ok, err, Result-cases, ok-err, ok-injective}
use vpn_password_manager.Vault.Envelope.{envelope_meta}
use vpn_password_manager.Vault.Document
use vpn_password_manager.Vault.Document.{Base64, VaultDocument}
use vpn_password_manager.Vault.Store.{
  Row, LocalVault, MergeReport, empty_vault, empty_report, upsert_row, upsert, delete, merge_item,
  merge_items, merge_tombstone, merge_tombstones, then_tombstones, merge,
}
use vpn_password_manager.Vault.Store.Merge.{merged, row_of, merge_items_induction}

pub record IsValid (v : LocalVault) : Type 0 where
  pub unique_items : IsUnique v.items
  pub unique_tombstones : IsUnique v.tombstones
  pub apart :
      (id : Bytes) (row : Row) → lookup id v.items ≡ some row → lookup id v.tombstones ≡ none
  pub indexed :
      (id : Bytes) (row : Row)
      → lookup id v.items ≡ some row
      → envelope_meta row.envelope ≡ ok (id, row.updated_at)

pub empty_vault-IsValid : IsValid empty_vault
unfolding lookup
empty_vault-IsValid = record {
  unique_items = tt;
  unique_tombstones = tt;
  apart = λ id row h. cc;
  indexed = λ id row h. cc;
}

module _ (v : LocalVault) (h : IsValid v) where
  pub upsert_row-IsValid :
      (id : Bytes) (row : Row)
      → envelope_meta row.envelope ≡ ok (id, row.updated_at)
      → IsValid (upsert_row v id row)
  unfolding upsert_row
  upsert_row-IsValid id row m = record {
    unique_items = insert-IsUnique id row v.items h.unique_items;
    unique_tombstones = remove-IsUnique id v.tombstones h.unique_tombstones;
    apart = λ j x p. ground (
      arith,
      lookup-insert id j row v.items,
      lookup-remove id j v.tombstones,
      text_eq_iff id j,
      h.apart j x,
    );
    indexed =
        λ j x p. ground (arith, lookup-insert id j row v.items, text_eq_iff id j, h.indexed j x);
  }

  pub delete-IsValid : (id : Bytes) (at : ℤ) → IsValid (delete v id at)
  unfolding delete
  delete-IsValid id at = record {
    unique_items = remove-IsUnique id v.items h.unique_items;
    unique_tombstones = insert-IsUnique id at v.tombstones h.unique_tombstones;
    apart = λ j x p. ground (
      arith,
      lookup-remove id j v.items,
      lookup-insert id j at v.tombstones,
      text_eq_iff id j,
      h.apart j x,
    );
    indexed = λ j x p. ground (arith, lookup-remove id j v.items, text_eq_iff id j, h.indexed j x);
  }

  upsert_inv :
      (env : Bytes) (w : LocalVault)
      → upsert v env ≡ ok w
      → (m : Bytes × ℤ) × (envelope_meta env ≡ ok m) × (w ≡ upsert_row v m.0 (row_of env m.1))
  unfolding upsert
  upsert_inv env w e = elim (Result-cases (envelope_meta env)) [
    | inl (x, p) ↦ absurd (ok-err {e = x} (sym e ∙ rw (p, upsert)))
    | inr (m, p) ↦ (m, p, ok-injective (sym e ∙ rw (p, upsert)))
  ]

  -- If an upsert succeeds on a valid vault, the vault that it leaves is valid.
  pub upsert-IsValid : (env : Bytes) (w : LocalVault) → upsert v env ≡ ok w → IsValid w
  upsert-IsValid env w e =
      let ((id, ts), m, same) = upsert_inv env w e in
      subst IsValid (sym same) (upsert_row-IsValid id (row_of env ts) m)

  merge_item-IsValid :
      (r : MergeReport) (id : Bytes) (row : Row)
      → envelope_meta row.envelope ≡ ok (id, row.updated_at)
      → IsValid (merge_item v r id row).0
  unfolding merge_item
  merge_item-IsValid r id row m = ground (arith, upsert_row-IsValid id row m)

  pub merge_tombstone-IsValid :
      (r : MergeReport) (id : Bytes) (at : ℤ) → IsValid (merge_tombstone v r id at).0
  unfolding merge_tombstone
  merge_tombstone-IsValid r id at = ground (arith, delete-IsValid id at)

merge_tombstones-IsValid :
    (ts : List (Bytes × ℤ)) (v : LocalVault) (r : MergeReport)
    → IsValid v
    → IsValid (merge_tombstones v r ts).0
unfolding merge_tombstones
merge_tombstones-IsValid [] v r h = h
merge_tombstones-IsValid ((id, at) ∷ ts) v r h =
    merge_tombstones-IsValid ts (merge_tombstone v r id at).0 (merge_tombstone v r id at).1
      (merge_tombstone-IsValid v h r id at)

pub merge_items-IsValid :
    (envs : List Bytes) (v : LocalVault) (r : MergeReport) → IsValid v → IsValid (merged v r envs)
merge_items-IsValid =
    merge_items_induction IsValid λ v r env id ts p h. merge_item-IsValid v h r id (row_of env ts) p

then_tombstones-IsValid :
    (w : LocalVault × Result CoreError MergeReport) (ts : List (Bytes × ℤ))
    → IsValid w.0
    → IsValid (then_tombstones w ts).0
unfolding then_tombstones
then_tombstones-IsValid (v, err e) ts h = h
then_tombstones-IsValid (v, ok r) ts h = merge_tombstones-IsValid ts v r h

-- A merge of any remote document into a valid vault leaves a valid vault, also when it fails.
pub merge-IsValid :
    (b64 : Base64) (v : LocalVault) (remote : VaultDocument)
    → IsValid v
    → IsValid (merge b64 v remote).0
unfolding merge
merge-IsValid b64 v remote h = elim (Result-cases (Document.envelopes b64 remote)) [
  | inl (e, p) ↦ rw (p, merge) h
  | inr (envs, p) ↦
      rw (p, merge)
        (then_tombstones-IsValid (merge_items v empty_report envs) remote.tombstones
          (merge_items-IsValid envs v empty_report h))
]
