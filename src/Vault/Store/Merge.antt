-- ===== src/Vault/Store/Merge.antt =====
-- The first loop of `merge`: the newest `updated_at` wins.
use vpn_password_manager.Base.{
  ℤ, ◌≤ℤ◌, ltb_ℤ, text_eq, text_eq_iff, List, [], ◌∷◌, Option, none, some, ◌≡◌, refl, sym, ap,
  subst, ◌∙◌, ◌⊎◌, inl, inr, if◌then◌else◌, In, arith,
}
use vpn_password_manager.Base.Assoc.{lookup, lookup-insert}
use vpn_password_manager.Base.Bytes.{Bytes}
use vpn_password_manager.Error.{CoreError, ok, err, Result-cases, ok-err, ok-injective}
use vpn_password_manager.Vault.Envelope.{envelope_meta}
use vpn_password_manager.Vault.Store.{Row, LocalVault, MergeReport, merge_item, merge_items}

-- The row that stands at an id after one envelope with that id.
newest : Option Row → Row → Row
newest none row = row
newest (some local) row = if ltb_ℤ local.updated_at row.updated_at then row else local

lookup-merge_item :
    (v : LocalVault) (r : MergeReport) (id j : Bytes) (row : Row)
    → lookup j (merge_item v r id row).0.items
      ≡ (if text_eq id j then some (newest (lookup id v.items) row) else lookup j v.items)
unfolding merge_item newest
lookup-merge_item v r id j row = ground (arith, lookup-insert id j row v.items, text_eq_iff id j)

-- A row stands at the id, and it is not older than `ts`.
abbrev pub AtLeast : LocalVault → Bytes → ℤ → Type 0
AtLeast v id ts = (row : Row) × (lookup id v.items ≡ some row) × (ts ≤ℤ row.updated_at)

merge_item-AtLeast :
    (v : LocalVault) (r : MergeReport) (id j : Bytes) (row : Row) (ts : ℤ)
    → AtLeast v j ts
    → AtLeast (merge_item v r id row).0 j ts
unfolding newest
merge_item-AtLeast v r id j row ts (old, at, le) = (
  if text_eq id j then newest (lookup id v.items) row else old,
  ground (arith, lookup-merge_item v r id j row, text_eq_iff id j),
  ground (arith, text_eq_iff id j),
)

merge_item_own :
    (v : LocalVault) (r : MergeReport) (id : Bytes) (row : Row)
    → AtLeast (merge_item v r id row).0 id row.updated_at
unfolding newest
merge_item_own v r id row = (
  newest (lookup id v.items) row,
  ground (arith, lookup-merge_item v r id id row, text_eq_iff id id),
  ground arith,
)

-- An envelope that is not newer than the row at its id changes nothing.
merge_item_old :
    (v : LocalVault) (r : MergeReport) (id : Bytes) (row : Row)
    → AtLeast v id row.updated_at
    → (merge_item v r id row).0 ≡ v
unfolding merge_item
merge_item_old v r id row (old, at, le) = ground arith

-- The vault after the first loop.
abbrev pub merged : LocalVault → MergeReport → List Bytes → LocalVault
merged v r envs = (merge_items v r envs).0

abbrev pub row_of : Bytes → ℤ → Row
row_of env ts = record { envelope = env; updated_at = ts }

module _ (v : LocalVault) (r : MergeReport) (env : Bytes) (envs : List Bytes) where
  pub merge_items_step :
      (id : Bytes) (ts : ℤ)
      → envelope_meta env ≡ ok (id, ts)
      → merge_items v r (env ∷ envs)
        ≡ merge_items
            (merge_item v r id (row_of env ts)).0
            (merge_item v r id (row_of env ts)).1
            envs
  unfolding merge_items
  merge_items_step id ts p = rw (p, merge_items)

  pub merge_items_stop :
      (e : CoreError) → envelope_meta env ≡ err e → merge_items v r (env ∷ envs) ≡ (v, err e)
  unfolding merge_items
  merge_items_stop e p = rw (p, merge_items)

-- What every merged envelope keeps holds after the loop, whether the loop fails or not.
module _ {ℓ} (P : LocalVault → Type ℓ) where
  pub merge_items_induction :
      ((v : LocalVault) (r : MergeReport) (env id : Bytes) (ts : ℤ)
        → envelope_meta env ≡ ok (id, ts)
        → P v
        → P (merge_item v r id (row_of env ts)).0)
      → (envs : List Bytes) (v : LocalVault) (r : MergeReport) → P v
      → P (merged v r envs)
  merge_items_induction keep [] v r h = unfold merge_items in h
  merge_items_induction keep (env ∷ envs) v r h = elim (Result-cases (envelope_meta env)) [
    | inl (e, p) ↦ rw (merge_items_stop v r env envs e p, merged) h
    | inr ((id, ts), p) ↦
        rw (merge_items_step v r env envs id ts p, merged)
          (merge_items_induction keep envs (merge_item v r id (row_of env ts)).0
            (merge_item v r id (row_of env ts)).1 (keep v r env id ts p h))
  ]

-- The merge of envelopes, failing or not, takes no row away and puts no older one in its place.
pub merge_items-AtLeast :
    (envs : List Bytes) (v : LocalVault) (r : MergeReport) (j : Bytes) (ts : ℤ)
    → AtLeast v j ts
    → AtLeast (merged v r envs) j ts
merge_items-AtLeast envs v r j ts =
    merge_items_induction (λ w. AtLeast w j ts)
      (λ w q env id t p. merge_item-AtLeast w q id j (row_of env t) ts) envs v r

-- The vault holds, at the id of each envelope, a row that is not older than the envelope.
abbrev pub Covers : LocalVault → List Bytes → Type 0
Covers v [] = Unit
Covers v (env ∷ envs) =
    ((id : Bytes) (ts : ℤ) → envelope_meta env ≡ ok (id, ts) → AtLeast v id ts) × Covers v envs

-- A merge of envelopes that does not fail leaves, at the id of each of them, a row that is not older
-- than it.
pub merge_items-Covers :
    (envs : List Bytes) (v : LocalVault) (r q : MergeReport)
    → (merge_items v r envs).1 ≡ ok q
    → Covers (merged v r envs) envs
merge_items-Covers [] v r q h = tt
merge_items-Covers (env ∷ envs) v r q h = elim (Result-cases (envelope_meta env)) [
  | inl (e, p) ↦ absurd (ok-err {e = e} (sym h ∙ ap (λ w. w.1) (merge_items_stop v r env envs e p)))
  | inr ((id, ts), p) ↦
      let w = merge_item v r id (row_of env ts) in
      let step = merge_items_step v r env envs id ts p in
      subst (λ x. Covers x (env ∷ envs)) (sym (ap (λ x. x.0) step))
        (
          λ id' ts' p'.
              let same : (id, ts) ≡ (id', ts') = ok-injective (sym p ∙ p') in
              subst (λ x. AtLeast (merged w.0 w.1 envs) x.0 x.1) same
                (merge_items-AtLeast envs w.0 w.1 id ts (merge_item_own v r id (row_of env ts))),
          merge_items-Covers envs w.0 w.1 q (rw step at h),
        )
]

-- What the vault holds already is merged again without any change, whatever the report.
pub merge_items-Covers_self :
    (envs : List Bytes) (v : LocalVault) (r : MergeReport) → Covers v envs → merged v r envs ≡ v
merge_items-Covers_self [] v r c = unfold merge_items in refl
merge_items-Covers_self (env ∷ envs) v r c = elim (Result-cases (envelope_meta env)) [
  | inl (e, p) ↦ rw (merge_items_stop v r env envs e p, merged)
  | inr ((id, ts), p) ↦
      let w = merge_item v r id (row_of env ts) in
      let same : w.0 ≡ v = merge_item_old v r id (row_of env ts) (c.0 id ts p) in
      ap (λ x. x.0) (merge_items_step v r env envs id ts p)
      ∙ subst (λ x. merged x w.1 envs ≡ v) (sym same) (merge_items-Covers_self envs v w.1 c.1)
]

-- Merging the same envelopes again, after a merge of them that did not fail, leaves the vault as
-- the first merge left it.
pub merge_items_twice :
    (envs : List Bytes) (v : LocalVault) (r q s : MergeReport)
    → (merge_items v r envs).1 ≡ ok q
    → (merge_items (merge_items v r envs).0 s envs).0 ≡ (merge_items v r envs).0
merge_items_twice envs v r q s h =
    merge_items-Covers_self envs (merged v r envs) s (merge_items-Covers envs v r q h)

pub Covers-In :
    (v : LocalVault) (envs : List Bytes) (env id : Bytes) (ts : ℤ)
    → Covers v envs
    → In env envs
    → envelope_meta env ≡ ok (id, ts)
    → AtLeast v id ts
Covers-In v [] env id ts c i m = absurd i
Covers-In v (x ∷ envs) env id ts c (inl e) m =
    c.0 id ts (subst (λ y. envelope_meta y ≡ ok (id, ts)) e m)
Covers-In v (x ∷ envs) env id ts c (inr i) m = Covers-In v envs env id ts c.1 i m

merge_item-source :
    (v : LocalVault) (r : MergeReport) (id j : Bytes) (row x : Row)
    → lookup j (merge_item v r id row).0.items ≡ some x
    → (lookup j v.items ≡ some x) ⊎ (x ≡ row)
unfolding newest
merge_item-source v r id j row x h =
    ground (arith, lookup-merge_item v r id j row, text_eq_iff id j)

-- A row after the merge of envelopes was there before, or its envelope is one of those merged.
pub merge_items-source :
    (envs : List Bytes) (v : LocalVault) (r : MergeReport) (j : Bytes) (x : Row)
    → lookup j (merged v r envs).items ≡ some x
    → (lookup j v.items ≡ some x) ⊎ In x.envelope envs
merge_items-source [] v r j x h = inl (unfold merge_items in h)
merge_items-source (env ∷ envs) v r j x h = elim (Result-cases (envelope_meta env)) [
  | inl (e, p) ↦ inl (rw (merge_items_stop v r env envs e p, merged) at h)
  | inr ((id, ts), p) ↦
      let w = merge_item v r id (row_of env ts) in
      elim (merge_items-source envs w.0 w.1 j x
        (rw (merge_items_step v r env envs id ts p, merged) at h)) [
          | inl old ↦ elim (merge_item-source v r id j (row_of env ts) x old) [
            | inl before ↦ inl before
            | inr own ↦ inr (inl (ap (λ (y : Row). y.envelope) own))
          ]
          | inr later ↦ inr (inr later)
        ]
]
