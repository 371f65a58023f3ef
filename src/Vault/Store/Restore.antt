-- ===== src/Vault/Store/Restore.antt =====
-- Restoring a snapshot: `merge` of `to_document` into an empty vault gives every item back.
use vpn_password_manager.Base.{
  ℤ, List, [], ◌∷◌, none, some, ◌≡◌, refl, ap, sym, ◌∙◌, inl, inr, retain, arith, In, All,
  Option-cases, Bool-cases, text_eq, text_eq_refl,
}
use vpn_password_manager.Base.Assoc.{Assoc, lookup, values, lookup-In, In-lookup}
use vpn_password_manager.Base.Bytes.{Bytes}
use vpn_password_manager.Error.{CoreError, Result, ok, err, ok-err}
use vpn_password_manager.Vault.Document.{Base64, from_envelopes, envelopes-from_envelopes}
use vpn_password_manager.Vault.Store.{
  Row, LocalVault, MergeReport, empty_vault, empty_report, newest_first, list_envelopes,
  to_document, merge_items, merge_tombstone, merge_tombstones, then_tombstones, merge, has_uuid,
}
use vpn_password_manager.Vault.Store.Invariant.{IsValid, merge_items-IsValid, empty_vault-IsValid}
use vpn_password_manager.Vault.Store.Merge.{
  Covers-In, merged, merge_items-Covers, merge_items-source,
}
use vpn_password_manager.Vault.Store.Snapshot.{
  In-newest_first, newest_first-In, In-envelopes_of, envelopes_of-In, merge_items_total, HasHeader,
}

not_in_empty : (id : Bytes) (y : Row) → lookup id empty_vault.items ≡ some y → ⊥
unfolding lookup
not_in_empty id y p = cc

module _ (v : LocalVault) (h : IsValid v) where
  -- Each envelope of the snapshot is that of a row.
  listed :
      (env : Bytes)
      → In env (list_envelopes v)
      → (id : Bytes) × (x : Row) × (lookup id v.items ≡ some x) × (env ≡ x.envelope)
  unfolding list_envelopes
  listed env i =
      let (x, j, e) = envelopes_of-In env (newest_first (values v.items)) i in
      let (id, p) = In-lookup x v.items h.unique_items (newest_first-In x (values v.items) j) in
      (id, x, p, e)

  row_listed :
      (id : Bytes) (x : Row) → lookup id v.items ≡ some x → In x.envelope (list_envelopes v)
  unfolding list_envelopes
  row_listed id x p =
      In-envelopes_of x _ (In-newest_first x (values v.items) (lookup-In id x v.items p))

  listed-HasHeader : (env : Bytes) → In env (list_envelopes v) → HasHeader env
  listed-HasHeader env i =
      let (id, x, p, e) = listed env i in ((id, x.updated_at), rw e (h.indexed id x p))

  -- The vault after the first loop of the restore.
  abbrev restored : LocalVault
  restored = merged empty_vault empty_report (list_envelopes v)

  restored-IsValid : IsValid restored
  restored-IsValid =
      merge_items-IsValid (list_envelopes v) empty_vault empty_report empty_vault-IsValid

  restored_sound :
      (id : Bytes) (y : Row) → lookup id restored.items ≡ some y → lookup id v.items ≡ some y
  restored_sound id y p =
      elim (merge_items-source (list_envelopes v) empty_vault empty_report id y p) [
        | inl old ↦ absurd (not_in_empty id y old)
        | inr i ↦
            let (j, x, q, e) = listed y.envelope i in
            let mine = restored-IsValid.indexed id y p in
            let theirs = h.indexed j x q in ground (arith, mine, theirs, q, e)
      ]

  restored_complete :
      (id : Bytes) (x : Row) → lookup id v.items ≡ some x → lookup id restored.items ≡ some x
  restored_complete id x p =
      let (q, done) =
        merge_items_total (list_envelopes v) empty_vault empty_report listed-HasHeader in
      let covers = merge_items-Covers (list_envelopes v) empty_vault empty_report q done in
      let (y, at, le) =
        Covers-In restored (list_envelopes v) x.envelope id x.updated_at covers (row_listed id x p)
          (h.indexed id x p) in
      ground (arith, at, restored_sound id y at, p)

  lookup-restored : (id : Bytes) → lookup id restored.items ≡ lookup id v.items
  lookup-restored id = elim (Option-cases (lookup id restored.items)) [
    | inr (y, p) ↦ p ∙ sym (restored_sound id y p)
    | inl p ↦ elim (Option-cases (lookup id v.items)) [
      | inl q ↦ p ∙ sym q
      | inr (x, q) ↦ restored_complete id x q ∙ sym q
    ]
  ]

merge_tombstone_absent :
    (v : LocalVault) (r : MergeReport) (id : Bytes) (at : ℤ)
    → lookup id v.items ≡ none
    → merge_tombstone v r id at ≡ (v, r)
unfolding merge_tombstone
merge_tombstone_absent v r id at p = rw (p, merge_tombstone)

merge_tombstones_absent :
    (ts : List (Bytes × ℤ)) (v : LocalVault) (r : MergeReport)
    → All (λ t. lookup t.0 v.items ≡ none) ts
    → merge_tombstones v r ts ≡ (v, r)
unfolding merge_tombstones
merge_tombstones_absent [] v r a = refl
merge_tombstones_absent ((id, at) ∷ ts) v r a =
    rw (merge_tombstone_absent v r id at a.0) (merge_tombstones_absent ts v r a.1)

All-keys :
    (P : Bytes → Type 0) (ts : Assoc ℤ)
    → ((id : Bytes) (d : ℤ) → lookup id ts ≡ some d → P id)
    → All (λ t. P t.0) (retain has_uuid ts)
unfolding lookup
All-keys P [] f = tt
All-keys P ((k, d) ∷ ts) f =
    let rest : All (λ t. P t.0) (retain has_uuid ts) = All-keys P ts λ id e p.
      elim (Bool-cases (text_eq k id)) [
        | inl same ↦ f id d (rw same)
        | inr other ↦ f id e (rw other p)
      ] in
    let here : P k = f k d (rw (text_eq_refl k)) in
    elim (Bool-cases (has_uuid (k, d))) [ inl b ↦ rw b (here, rest) | inr b ↦ rw b rest ]

-- The tombstones of a valid vault name no live item.
tombstones_absent :
    (v : LocalVault)
    → IsValid v
    → All (λ t. lookup t.0 v.items ≡ none) (retain has_uuid v.tombstones)
tombstones_absent v h =
    All-keys (λ id. lookup id v.items ≡ none) v.tombstones
      λ id d p. elim (Option-cases (lookup id v.items)) [
        | inl q ↦ q
        | inr (x, q) ↦ cc (h.apart id x q)
      ]

All-restored :
    (v : LocalVault) (h : IsValid v) (ts : List (Bytes × ℤ))
    → All (λ t. lookup t.0 v.items ≡ none) ts
    → All (λ t. lookup t.0 (restored v h).items ≡ none) ts
All-restored v h [] a = tt
All-restored v h (t ∷ ts) a = (lookup-restored v h t.0 ∙ a.0, All-restored v h ts a.1)

-- The second loop, behind a first loop that did not fail, over tombstones that name no live item.
then_tombstones_absent :
    (w : LocalVault × Result CoreError MergeReport) (q : MergeReport) (ts : List (Bytes × ℤ))
    → w.1 ≡ ok q
    → All (λ t. lookup t.0 w.0.items ≡ none) ts
    → then_tombstones w ts ≡ (w.0, ok q)
unfolding then_tombstones
then_tombstones_absent (v, err e) q ts h a = absurd (ok-err {e = e} (sym h))
then_tombstones_absent (v, ok r) q ts h a =
    rw (merge_tombstones_absent ts v r a) (ap (λ (x : Result CoreError MergeReport). (v, x)) h)

merge_snapshot :
    (b64 : Base64) (v : LocalVault) (h : IsValid v)
    → merge b64 empty_vault (to_document b64 v)
      ≡ then_tombstones
          (merge_items empty_vault empty_report (list_envelopes v))
          (retain has_uuid v.tombstones)
unfolding merge to_document from_envelopes
merge_snapshot b64 v h =
    rw (envelopes-from_envelopes b64 (list_envelopes v) (retain has_uuid v.tombstones), merge)

-- The snapshot of a valid vault, merged into an empty vault, is merged without failure, and every
-- item is looked up there as in the vault: the same envelope and time, or none.
pub restore_lem :
    (b64 : Base64) (v : LocalVault)
    → IsValid v
    → let r = merge b64 empty_vault (to_document b64 v) in
      ((q : MergeReport) × (r.1 ≡ ok q)) × ((id : Bytes) → lookup id r.0.items ≡ lookup id v.items)
restore_lem b64 v h =
    let ts = retain has_uuid v.tombstones in
    let first = merge_items empty_vault empty_report (list_envelopes v) in
    let (q, done) =
      merge_items_total (list_envelopes v) empty_vault empty_report (listed-HasHeader v h) in
    let all_absent = All-restored v h ts (tombstones_absent v h) in
    let result = merge_snapshot b64 v h ∙ then_tombstones_absent first q ts done all_absent in
    ((q, ap (λ x. x.1) result), λ id. ap (λ x. lookup id x.0.items) result ∙ lookup-restored v h id)
