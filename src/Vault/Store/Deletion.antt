-- ===== src/Vault/Store/Deletion.antt =====
-- Tombstones: what the second loop of `merge` deletes, and what the first loop brings back.
use vpn_password_manager.Base.{
  ℕ, ◌+◌, ℤ, leb_ℤ, text_eq, text_eq_iff, List, [], ◌∷◌, none, some, ◌≡◌, refl, ap, subst, ◌∙◌, In,
  All, ◌≢◌, sym, inl, inr, if◌then◌else◌, length, arith,
}
use vpn_password_manager.Base.Assoc.{
  lookup, lookup-insert, lookup-remove, IsUnique, length-insert, length-remove,
}
use vpn_password_manager.Base.Bytes.{Bytes}
use vpn_password_manager.Error.{CoreError, Result, ok, err, Result-cases, ok-err, ok-injective}
use vpn_password_manager.Vault.Envelope.{envelope_meta}
use vpn_password_manager.Vault.Document
use vpn_password_manager.Vault.Document.{Base64, VaultDocument}
use vpn_password_manager.Vault.Store.{
  Row, LocalVault, MergeReport, empty_report, upsert_row, delete, count, merge_item, merge_items,
  merge_tombstone, merge_tombstones, then_tombstones, merge,
}
use vpn_password_manager.Vault.Store.Invariant.{
  IsValid, merge_tombstone-IsValid, merge_items-IsValid, merge-IsValid,
}
use vpn_password_manager.Vault.Store.Merge.{
  AtLeast, Covers-In, merged, row_of, merge_items_step, merge_items_stop, merge_items-Covers,
}

-- A tombstone takes the row at its id away exactly when the row is not newer than it, and then the
-- tombstone is recorded; otherwise, and at all other ids, rows and tombstones stay as they were.
pub merge_tombstone_lem :
    (v : LocalVault) (r : MergeReport) (id j : Bytes) (at : ℤ) (row : Row)
    → lookup id v.items ≡ some row
    → let w = (merge_tombstone v r id at).0 in
      let gone = leb_ℤ row.updated_at at in
      (lookup j w.items
        ≡ (if text_eq id j then (if gone then none else some row) else lookup j v.items))
      × (lookup j w.tombstones ≡ (
          if text_eq id j
          then (if gone then some at else lookup id v.tombstones)
          else lookup j v.tombstones))
unfolding merge_tombstone delete
merge_tombstone_lem v r id j at row p =
    ground (arith, lookup-remove id j v.items, lookup-insert id j at v.tombstones, text_eq_iff id j)

-- A vault with this many live rows, after what the report counts.
abbrev pub Balanced : ℕ → LocalVault → MergeReport → Type 0
Balanced n v r = length v.items + r.deleted ≡ n + r.added

merge_item-Balanced :
    (n : ℕ) (v : LocalVault) (r : MergeReport) (id : Bytes) (row : Row)
    → Balanced n v r
    → Balanced n (merge_item v r id row).0 (merge_item v r id row).1
unfolding merge_item upsert_row
merge_item-Balanced n v r id row b = ground (arith, length-insert id row v.items)

merge_tombstone-Balanced :
    (n : ℕ) (v : LocalVault) (r : MergeReport) (id : Bytes) (at : ℤ)
    → IsUnique v.items
    → Balanced n v r
    → Balanced n (merge_tombstone v r id at).0 (merge_tombstone v r id at).1
unfolding merge_tombstone delete
merge_tombstone-Balanced n v r id at u b = ground (arith, length-remove id v.items u)

merge_items-Balanced :
    (n : ℕ) (envs : List Bytes) (v : LocalVault) (r q : MergeReport)
    → Balanced n v r
    → (merge_items v r envs).1 ≡ ok q
    → Balanced n (merged v r envs) q
unfolding merge_items
merge_items-Balanced n [] v r q b h = subst (Balanced n v) (ok-injective h) b
merge_items-Balanced n (env ∷ envs) v r q b h = elim (Result-cases (envelope_meta env)) [
  | inl (e, p) ↦ absurd (ok-err {e = e} (sym h ∙ ap (λ w. w.1) (merge_items_stop v r env envs e p)))
  | inr ((id, ts), p) ↦
      let step = merge_items_step v r env envs id ts p in
      let w = merge_item v r id (row_of env ts) in
      subst (λ x. Balanced n x q) (sym (ap (λ x. x.0) step))
        (merge_items-Balanced n envs w.0 w.1 q (merge_item-Balanced n v r id (row_of env ts) b)
          (rw step at h))
]

merge_tombstones-Balanced :
    (n : ℕ) (ts : List (Bytes × ℤ)) (v : LocalVault) (r : MergeReport)
    → IsValid v
    → Balanced n v r
    → Balanced n (merge_tombstones v r ts).0 (merge_tombstones v r ts).1
unfolding merge_tombstones
merge_tombstones-Balanced n [] v r h b = b
merge_tombstones-Balanced n ((id, at) ∷ ts) v r h b =
    merge_tombstones-Balanced n ts (merge_tombstone v r id at).0 (merge_tombstone v r id at).1
      (merge_tombstone-IsValid v h r id at) (merge_tombstone-Balanced n v r id at h.unique_items b)

then_tombstones_ok :
    (w : LocalVault × Result CoreError MergeReport) (ts : List (Bytes × ℤ)) (q : MergeReport)
    → (then_tombstones w ts).1 ≡ ok q
    → (r : MergeReport) × (w.1 ≡ ok r)
      × ((then_tombstones w ts).0 ≡ (merge_tombstones w.0 r ts).0)
      × (q ≡ (merge_tombstones w.0 r ts).1)
unfolding then_tombstones
then_tombstones_ok (v, err e) ts q h = absurd (ok-err {e = e} (sym h))
then_tombstones_ok (v, ok r) ts q h = (r, refl, refl, sym (ok-injective h))

-- The two loops of a merge that does not fail.
pub merge_ok :
    (b64 : Base64) (v : LocalVault) (remote : VaultDocument) (q : MergeReport)
    → (merge b64 v remote).1 ≡ ok q
    → (envs : List Bytes) × (r : MergeReport) × (Document.envelopes b64 remote ≡ ok envs)
      × ((merge_items v empty_report envs).1 ≡ ok r)
      × ((merge b64 v remote).0
          ≡ (merge_tombstones (merged v empty_report envs) r remote.tombstones).0)
      × (q ≡ (merge_tombstones (merged v empty_report envs) r remote.tombstones).1)
unfolding merge
merge_ok b64 v remote q h = elim (Result-cases (Document.envelopes b64 remote)) [
  | inl (e, p) ↦ absurd (ok-err {e = e} (sym h ∙ rw (p, merge)))
  | inr (envs, p) ↦
      let (r, a, b, c) =
        then_tombstones_ok (merge_items v empty_report envs) remote.tombstones q
          (rw (p, merge) at h) in
      (envs, r, p, a, rw (p, merge) b, c)
]

-- After a merge that does not fail into a valid vault, the live items and the reported deletions
-- are together as many as the live items before and the reported additions.
pub merge-Balanced :
    (b64 : Base64) (v : LocalVault) (remote : VaultDocument) (q : MergeReport)
    → IsValid v
    → (merge b64 v remote).1 ≡ ok q
    → count (merge b64 v remote).0 + q.deleted ≡ count v + q.added
unfolding count
merge-Balanced b64 v remote q h e =
    let (envs, r, p, a, b, c) = merge_ok b64 v remote q e in
    let n = length v.items in
    let first = merge_items-Balanced n envs v empty_report r (omega arith) a in
    let w = merged v empty_report envs in
    rw (b, c)
      (merge_tombstones-Balanced n remote.tombstones w r (merge_items-IsValid envs v empty_report h)
        first)

merge_tombstones_other :
    (ts : List (Bytes × ℤ)) (v : LocalVault) (r : MergeReport) (id : Bytes)
    → All (λ t. t.0 ≢ id) ts
    → lookup id (merge_tombstones v r ts).0.items ≡ lookup id v.items
unfolding merge_tombstones merge_tombstone delete
merge_tombstones_other [] v r id h = refl
merge_tombstones_other ((k, at) ∷ ts) v r id h =
    merge_tombstones_other ts (merge_tombstone v r k at).0 (merge_tombstone v r k at).1 id h.1
    ∙ ground (arith, h.0, lookup-remove k id v.items, text_eq_iff k id)

-- A deletion made here does not survive a merge with a document that still holds the item: whatever
-- tombstone a valid vault has for an id, after a merge that does not fail of a document with an
-- envelope of that id and no tombstone for it, the item is live, at least as new as the envelope,
-- and its tombstone is gone.
pub merge_undeletes :
    (b64 : Base64) (v : LocalVault) (remote : VaultDocument) (q : MergeReport) (envs : List Bytes)
    (env id : Bytes) (ts : ℤ)
    → IsValid v
    → Document.envelopes b64 remote ≡ ok envs
    → In env envs
    → envelope_meta env ≡ ok (id, ts)
    → All (λ t. t.0 ≢ id) remote.tombstones
    → (merge b64 v remote).1 ≡ ok q
    → AtLeast (merge b64 v remote).0 id ts × (lookup id (merge b64 v remote).0.tombstones ≡ none)
merge_undeletes b64 v remote q envs env id ts h d i m none_there e =
    let (envs', r, p, a, b, c) = merge_ok b64 v remote q e in
    let same : envs' ≡ envs = ok-injective (sym p ∙ d) in
    let w = merged v empty_report envs' in
    let covers = merge_items-Covers envs' v empty_report r a in
    let (row, at, le) = Covers-In w envs' env id ts covers (subst (In env) (sym same) i) m in
    let there =
      ap (λ x. lookup id x.items) b
      ∙ merge_tombstones_other remote.tombstones w r id none_there
      ∙ at in
    ((row, there, le), (merge-IsValid b64 v remote h).apart id row there)
