-- ===== src/Health/Audit/Reused.antt =====
-- The groups of the audit are the items that share a password.
use vpn_password_manager.Base.{
  ℕ, ◌≤◌, ℤ, Text, text_eq, text_eq_iff, Bool, false, List, [], ◌∷◌, ◌++◌, append_assoc, Option,
  none, some, length, ltb, map, In, In-retain, ◌≡◌, refl, sym, ap, ◌∙◌, subst, inl, inr, arith,
  append-nil, Bool-cases, if◌then◌else◌,
}
use vpn_password_manager.Base.Assoc.{
  Assoc, lookup, lookup-insert, IsUnique, insert-IsUnique, values, lookup-In, In-lookup,
}
use vpn_password_manager.Base.Bytes.{Bytes}
use vpn_password_manager.Error.{CoreError, Result}
use vpn_password_manager.Vault.Model.{Item, password}
use vpn_password_manager.Health.Audit.{
  ReusedGroup, AuditReport, ids_at, push_id, group_by_password, group_of, find_reused, audit_one,
  audit_item, audit_items, run_audit,
}

abbrev has_password : Option Text → Text → Bool
has_password none pw = false
has_password (some p) pw = text_eq p pw

-- The items with a password, in their order.
abbrev pub ids_of : Text → List Item → List Bytes
ids_of pw [] = []
ids_of pw (it ∷ items) =
    let rest = ids_of pw items in if has_password (password it) pw then it.id ∷ rest else rest

-- What stands at a password once more ids are pushed to it.
abbrev grown : Option (List Bytes) → List Bytes → Option (List Bytes)
grown none [] = none
grown none (x ∷ xs) = some (x ∷ xs)
grown (some ys) xs = some (ys ++ xs)

lookup-push_id :
    (p : Option Text) (pw : Text) (id : Bytes) (groups : Assoc (List Bytes))
    → lookup pw (push_id p id groups) ≡ (
        if has_password p pw
        then some (ids_at (lookup pw groups) ++ (id ∷ []))
        else lookup pw groups)
unfolding push_id
lookup-push_id none pw id groups = refl
lookup-push_id (some p) pw id groups =
    ground
      (arith, lookup-insert p pw (ids_at (lookup p groups) ++ (id ∷ [])) groups, text_eq_iff p pw)

grown-push :
    (o : Option (List Bytes)) (id : Bytes) (xs : List Bytes)
    → grown (some (ids_at o ++ (id ∷ []))) xs ≡ grown o (id ∷ xs)
grown-push none id xs = refl
grown-push (some ys) id xs = ap some (append_assoc ys (id ∷ []) xs)

lookup-group_by_password :
    (pw : Text) (items : List Item) (groups : Assoc (List Bytes))
    → lookup pw (group_by_password items groups) ≡ grown (lookup pw groups) (ids_of pw items)
unfolding group_by_password
lookup-group_by_password pw [] groups = grown_nil (lookup pw groups)
  where
    grown_nil : (o : Option (List Bytes)) → o ≡ grown o []
    grown_nil none = refl
    grown_nil (some ys) = ap some (sym (append-nil ys))
lookup-group_by_password pw (it ∷ items) groups =
    let pushed = push_id (password it) it.id groups in
    let later = lookup-group_by_password pw items pushed in
    let found = lookup-push_id (password it) pw it.id groups in
    elim (Bool-cases (has_password (password it) pw)) [
      | inl q ↦
          let here : lookup pw pushed ≡ some (ids_at (lookup pw groups) ++ (it.id ∷ [])) =
            rw (found, q) refl in
          rw q (
            later
            ∙ ap (λ o. grown o (ids_of pw items)) here
            ∙ grown-push (lookup pw groups) it.id (ids_of pw items))
      | inr q ↦
          let here : lookup pw pushed ≡ lookup pw groups = rw (found, q) refl in
          rw q (later ∙ ap (λ o. grown o (ids_of pw items)) here)
    ]

push_id-IsUnique :
    (p : Option Text) (id : Bytes) (groups : Assoc (List Bytes))
    → IsUnique groups
    → IsUnique (push_id p id groups)
unfolding push_id
push_id-IsUnique none id groups u = u
push_id-IsUnique (some p) id groups u = insert-IsUnique p _ groups u

group_by_password-IsUnique :
    (items : List Item) (groups : Assoc (List Bytes))
    → IsUnique groups
    → IsUnique (group_by_password items groups)
unfolding group_by_password
group_by_password-IsUnique [] groups u = u
group_by_password-IsUnique (it ∷ items) groups u =
    group_by_password-IsUnique items _ (push_id-IsUnique (password it) it.id groups u)

-- From an empty map, a password has the ids of its items, if there are any.
lookup_ids :
    (pw : Text) (items : List Item)
    → lookup pw (group_by_password items []) ≡ grown none (ids_of pw items)
unfolding lookup
lookup_ids pw items = lookup-group_by_password pw items []

grown-some : (xs ys : List Bytes) → grown none xs ≡ some ys → xs ≡ ys
grown-some [] ys h = cc
grown-some (x ∷ xs) ys h = cc

In-map_group :
    (g : ReusedGroup) (xs : List (List Bytes))
    → In g (map group_of xs)
    → (ids : List Bytes) × (g ≡ group_of ids) × In ids xs
In-map_group g [] i = absurd i
In-map_group g (x ∷ xs) (inl e) = (x, e, inl refl)
In-map_group g (x ∷ xs) (inr i) = let (ids, e, j) = In-map_group g xs i in (ids, e, inr j)

map_group-In :
    (ids : List Bytes) (xs : List (List Bytes)) → In ids xs → In (group_of ids) (map group_of xs)
map_group-In ids [] i = absurd i
map_group-In ids (x ∷ xs) (inl e) = inl (ap group_of e)
map_group-In ids (x ∷ xs) (inr i) = inr (map_group-In ids xs i)

find_reused_sound :
    (items : List Item) (g : ReusedGroup)
    → In g (find_reused items)
    → (pw : Text) × (g.item_ids ≡ ids_of pw items) × (2 ≤ length g.item_ids)
unfolding find_reused
find_reused_sound items g i =
    let groups = group_by_password items [] in
    let (ids, e, j) = In-map_group g _ i in
    let (k, many) = (In-retain (λ x. ltb 1 (length x)) (values groups) ids).0 j in
    let (pw, at) = In-lookup ids groups (group_by_password-IsUnique items [] tt) k in
    let same : ids_of pw items ≡ ids =
      grown-some (ids_of pw items) ids (sym (lookup_ids pw items) ∙ at) in
    (pw, ap (λ (x : ReusedGroup). x.item_ids) e ∙ sym same, rw e (ground (arith, many)))

grown_many : (xs : List Bytes) → 2 ≤ length xs → grown none xs ≡ some xs
grown_many [] h = absurd (omega arith)
grown_many (x ∷ xs) h = refl

find_reused_complete :
    (items : List Item) (pw : Text)
    → 2 ≤ length (ids_of pw items)
    → In (group_of (ids_of pw items)) (find_reused items)
unfolding find_reused
find_reused_complete items pw many =
    let groups = group_by_password items [] in
    let ids = ids_of pw items in
    let at : lookup pw groups ≡ some ids = lookup_ids pw items ∙ grown_many ids many in
    map_group-In ids _ (
      (In-retain (λ x. ltb 1 (length x)) (values groups) ids).1
        (lookup-In pw ids groups at, ground (arith, many)))

module _ (assess : Text → List Text → ℕ) (breach_count : Text → Result CoreError ℕ) where
  reused-audit_item :
      (now : ℤ) (it : Item) (r : AuditReport)
      → (audit_item assess breach_count now it r).reused ≡ r.reused
  unfolding audit_item audit_one
  reused-audit_item now it r = ground arith

  reused-audit_items :
      (now : ℤ) (items : List Item) (r : AuditReport)
      → (audit_items assess breach_count now items r).reused ≡ r.reused
  unfolding audit_items
  reused-audit_items now [] r = refl
  reused-audit_items now (it ∷ items) r =
      reused-audit_items now items (audit_item assess breach_count now it r)
      ∙ reused-audit_item now it r

  reused-run_audit :
      (items : List Item) (now : ℤ)
      → (run_audit assess breach_count items now).reused ≡ find_reused items
  unfolding run_audit
  reused-run_audit items now = reused-audit_items now items _

  -- Each group of the audit holds the ids of all the items with some password, and at least two of
  -- them; and for each password that at least two items have, their ids are one of the groups.
  pub run_audit_reused :
      (items : List Item) (now : ℤ)
      → let groups = (run_audit assess breach_count items now).reused in
        ((g : ReusedGroup)
          → In g groups
          → (pw : Text) × (g.item_ids ≡ ids_of pw items) × (2 ≤ length g.item_ids))
        × ((pw : Text) → 2 ≤ length (ids_of pw items) → In (group_of (ids_of pw items)) groups)
  run_audit_reused items now =
      let same = reused-run_audit items now in
      (
        λ g i. find_reused_sound items g (subst (In g) same i),
        λ pw many.
            subst (In (group_of (ids_of pw items))) (sym same) (find_reused_complete items pw many),
      )
