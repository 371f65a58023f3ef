-- ===== src/Vault/Store/Snapshot.antt =====
-- `to_document` and `merge` against each other: a snapshot restored into an empty vault.
use vpn_password_manager.Base.{
  ℤ, leb_ℤ, List, [], ◌∷◌, ◌≡◌, refl, ap, ◌∙◌, inl, inr, ◌⊎◌, map, In, Bool-cases,
}
use vpn_password_manager.Base.Bytes.{Bytes}
use vpn_password_manager.Error.{ok}
use vpn_password_manager.Vault.Envelope.{envelope_meta}
use vpn_password_manager.Vault.Store.{
  Row, LocalVault, MergeReport, insert_newest, newest_first, merge_item, merge_items,
}
use vpn_password_manager.Vault.Store.Merge.{row_of, merge_items_step}

abbrev pub envelopes_of : List Row → List Bytes
envelopes_of rows = map (λ (r : Row). r.envelope) rows

insert_newest_into :
    (x r : Row) (rows : List Row) → (x ≡ r) ⊎ In x rows → In x (insert_newest r rows)
unfolding insert_newest
insert_newest_into x r [] i = i
insert_newest_into x r (s ∷ rows) i = elim (Bool-cases (leb_ℤ s.updated_at r.updated_at)) [
  | inl e ↦ rw e i
  | inr e ↦ rw e (elim i [
    | inl p ↦ inr (insert_newest_into x r rows (inl p))
    | inr (inl q) ↦ inl q
    | inr (inr t) ↦ inr (insert_newest_into x r rows (inr t))
  ])
]

insert_newest_from :
    (x r : Row) (rows : List Row) → In x (insert_newest r rows) → (x ≡ r) ⊎ In x rows
unfolding insert_newest
insert_newest_from x r [] i = i
insert_newest_from x r (s ∷ rows) i = elim (Bool-cases (leb_ℤ s.updated_at r.updated_at)) [
  | inl e ↦ rw e at i
  | inr e ↦ elim (let j : In x (s ∷ insert_newest r rows) = rw e at i in j) [
    | inl q ↦ inr (inl q)
    | inr t ↦ elim (insert_newest_from x r rows t) [ inl p ↦ inl p | inr u ↦ inr (inr u) ]
  ]
]

pub In-newest_first : (x : Row) (rows : List Row) → In x rows → In x (newest_first rows)
unfolding newest_first
In-newest_first x [] i = i
In-newest_first x (r ∷ rows) (inl p) = insert_newest_into x r (newest_first rows) (inl p)
In-newest_first x (r ∷ rows) (inr i) =
    insert_newest_into x r (newest_first rows) (inr (In-newest_first x rows i))

pub newest_first-In : (x : Row) (rows : List Row) → In x (newest_first rows) → In x rows
unfolding newest_first
newest_first-In x [] i = i
newest_first-In x (r ∷ rows) i = elim (insert_newest_from x r (newest_first rows) i) [
  | inl p ↦ inl p
  | inr j ↦ inr (newest_first-In x rows j)
]

pub In-envelopes_of : (x : Row) (rows : List Row) → In x rows → In x.envelope (envelopes_of rows)
In-envelopes_of x [] i = i
In-envelopes_of x (r ∷ rows) (inl p) = inl (ap (λ (y : Row). y.envelope) p)
In-envelopes_of x (r ∷ rows) (inr i) = inr (In-envelopes_of x rows i)

pub envelopes_of-In :
    (env : Bytes) (rows : List Row)
    → In env (envelopes_of rows)
    → (x : Row) × In x rows × (env ≡ x.envelope)
envelopes_of-In env [] i = absurd i
envelopes_of-In env (r ∷ rows) (inl p) = (r, inl refl, p)
envelopes_of-In env (r ∷ rows) (inr i) = let (x, j, e) = envelopes_of-In env rows i in (x, inr j, e)

-- Envelopes that all have a header are merged without failure.
abbrev pub HasHeader : Bytes → Type 0
HasHeader env = (m : Bytes × ℤ) × (envelope_meta env ≡ ok m)

pub merge_items_total :
    (envs : List Bytes) (v : LocalVault) (r : MergeReport)
    → ((env : Bytes) → In env envs → HasHeader env)
    → (q : MergeReport) × ((merge_items v r envs).1 ≡ ok q)
merge_items_total [] v r h = (r, unfold merge_items in refl)
merge_items_total (env ∷ envs) v r h =
    let ((id, ts), p) = h env (inl refl) in
    let w = merge_item v r id (row_of env ts) in
    let (q, e) = merge_items_total envs w.0 w.1 (λ x i. h x (inr i)) in
    (q, ap (λ x. x.1) (merge_items_step v r env envs id ts p) ∙ e)
