-- ===== src/Vpn/Sweep.antt =====
-- crates/core/src/vpn/sweep.rs: the orphan sweep. The set of ids to keep is a list.
use vpn_password_manager.Base.{
  Text, text_eq, any_iff_In, Bool, true, false, not, List, [], ◌∷◌, ◌++◌, Option, none, some, ◌≡◌,
  refl, sym, ap, ◌∙◌, map, any, retain, if◌then◌else◌, In, In-retain, inl, inr, arith, Bool-cases,
  append_assoc, reverse, reverse-cons, ◌↔◌,
}
use vpn_password_manager.Error.{ok, err}
use vpn_password_manager.Cloud.Provider.{Instance, CloudProvider}
use vpn_password_manager.Vpn.Effects.{State, M, call, delete_instance, deletions}

unfoldable pub keeps : List Text → Text → Bool
keeps keep id = any (λ k. text_eq k id) keep

module _ {W : Type 0} (cloud : CloudProvider W) (keep : List Text) where
  -- One round of the loop: whether the instance is reaped.
  unfoldable pub sweep_one : Instance → State W → Bool × State W
  sweep_one inst s = if keeps keep inst.id then (false, s) else (
    elim (delete_instance cloud inst.id s).0 [ ok _ ↦ true | err _ ↦ false ],
    (delete_instance cloud inst.id s).1,
  )

  unfoldable pub sweep_all : List Instance → State W → List Text × State W
  sweep_all [] s = ([], s)
  sweep_all (inst ∷ rest) s =
      let (reaped, s') = sweep_one inst s in
      let (ids, s'') = sweep_all rest s' in (if reaped then inst.id ∷ ids else ids, s'')

  unfoldable pub orphan_sweep_keeping : M W (List Text)
  orphan_sweep_keeping s = elim (call cloud.list_ephemeral s).0 [
    | err e ↦ (err e, (call cloud.list_ephemeral s).1)
    | ok instances ↦
        let (ids, s') = sweep_all instances (call cloud.list_ephemeral s).1 in (ok ids, s')
  ]

unfoldable pub orphan_sweep : {W : Type 0} → CloudProvider W → Option Text → M W (List Text)
orphan_sweep cloud none = orphan_sweep_keeping cloud []
orphan_sweep cloud (some id) = orphan_sweep_keeping cloud (id ∷ [])

behind :
    (xs : List Text) (x : Text) (ys : List Text) → reverse (x ∷ xs) ++ ys ≡ reverse xs ++ (x ∷ ys)
behind xs x ys = rw (reverse-cons x xs) (append_assoc (reverse xs) (x ∷ []) ys)

module _ {W : Type 0} (cloud : CloudProvider W) (keep : List Text) where
  -- Of the ids that are listed, in their order, those that are not to be kept.
  abbrev pub orphans : List Instance → List Text
  orphans is = retain (λ id. not (keeps keep id)) (map (λ (i : Instance). i.id) is)

  deletions-sweep_one :
      (i : Instance) (s : State W)
      → deletions (sweep_one cloud keep i s).1.trace
        ≡ (if keeps keep i.id then deletions s.trace else i.id ∷ deletions s.trace)
  unfolding sweep_one delete_instance
  deletions-sweep_one i s = ground arith

  -- The loop asks for the deletion of the orphans, each once, in the order of the listing.
  deletions-sweep_all :
      (is : List Instance) (s : State W)
      → deletions (sweep_all cloud keep is s).1.trace ≡ reverse (orphans is) ++ deletions s.trace
  unfolding sweep_all
  deletions-sweep_all [] s = refl
  deletions-sweep_all (i ∷ is) s =
      let later = deletions-sweep_all is (sweep_one cloud keep i s).1 in
      let now = deletions-sweep_one i s in
      elim (Bool-cases (keeps keep i.id)) [
        | inl e ↦ rw e (later ∙ ap (λ t. reverse (orphans is) ++ t) (now ∙ rw e))
        | inr e ↦ rw e (
            later
            ∙ ap (λ t. reverse (orphans is) ++ t) (now ∙ rw e)
            ∙ sym (behind (orphans is) i.id (deletions s.trace)))
      ]

  kept_iff : (id : Text) → (not (keeps keep id) ≡ true) ↔ (¬ In id keep)
  unfolding keeps
  kept_iff id = (
    λ h i. cc ((any_iff_In keep id).1 i, h),
    λ n. elim (Bool-cases (keeps keep id)) [
      | inl e ↦ absurd (n ((any_iff_In keep id).0 e))
      | inr e ↦ rw e
    ],
  )

  In-orphans :
      (is : List Instance) (id : Text)
      → In id (orphans is) ↔ (In id (map (λ (i : Instance). i.id) is) × ¬ In id keep)
  In-orphans is id =
      let iff = In-retain (λ x. not (keeps keep x)) (map (λ (i : Instance). i.id) is) id in
      (λ i. ((iff.0 i).0, (kept_iff id).0 (iff.0 i).1), λ (i, n). iff.1 (i, (kept_iff id).1 n))

  reaped_one :
      (i : Instance) (s : State W)
      → (sweep_one cloud keep i s).0 ≡ true
      → not (keeps keep i.id) ≡ true
  unfolding sweep_one
  reaped_one i s h = ground arith

  -- What is reported as reaped is an orphan.
  reaped_all :
      (is : List Instance) (s : State W) (id : Text)
      → In id (sweep_all cloud keep is s).0
      → In id (orphans is)
  unfolding sweep_all
  reaped_all [] s id i = i
  reaped_all (x ∷ is) s id i =
      let s' = (sweep_one cloud keep x s).1 in
      let later = reaped_all is s' id in
      elim (Bool-cases (sweep_one cloud keep x s).0) [
        | inl e ↦
            rw (reaped_one x s e)
              (elim (let j : In id (x.id ∷ (sweep_all cloud keep is s').0) = rw e at i in j) [
                | inl p ↦ inl p
                | inr j ↦ inr (later j)
              ])
        | inr e ↦ skip (keeps keep x.id) x.id (orphans is) id (later (rw e at i))
      ]
    where
      skip :
          (b : Bool) (x : Text) (xs : List Text) (id : Text)
          → In id xs
          → In id (if not b then x ∷ xs else xs)
      skip true x xs id j = j
      skip false x xs id j = inr j

  sweep_listed :
      (s : State W) (is : List Instance)
      → (call cloud.list_ephemeral s).0 ≡ ok is
      → let t = sweep_all cloud keep is (call cloud.list_ephemeral s).1 in
        orphan_sweep_keeping cloud keep s ≡ (ok t.0, t.1)
  unfolding orphan_sweep_keeping
  sweep_listed s is h = rw (h, orphan_sweep_keeping)

  -- If the provider lists these instances, a sweep succeeds. It asks for the deletion of those
  -- whose id is not to be kept, one after the other in the order of the listing, once for each time
  -- they are listed, whichever of the deletions fail, and for no other deletion; the trace has the
  -- newest first. The ids that it reports as reaped are among those.
  pub orphan_sweep_keeping_lem :
      (s : State W) (is : List Instance)
      → (call cloud.list_ephemeral s).0 ≡ ok is
      → let t = (orphan_sweep_keeping cloud keep s).1 in
        (reaped : List Text) × ((orphan_sweep_keeping cloud keep s).0 ≡ ok reaped)
        × (deletions t.trace ≡ reverse (orphans is) ++ deletions s.trace)
        × ((id : Text)
            → In id (orphans is) ↔ (In id (map (λ (i : Instance). i.id) is) × ¬ In id keep))
        × ((id : Text) → In id reaped → In id (orphans is))
  orphan_sweep_keeping_lem s is h =
      let s' = (call cloud.list_ephemeral s).1 in
      let same : deletions s'.trace ≡ deletions s.trace = unfold call in refl in
      (
        (sweep_all cloud keep is s').0,
        ap (λ x. x.0) (sweep_listed s is h),
        ap (λ x. deletions x.1.trace) (sweep_listed s is h)
            ∙ (deletions-sweep_all is s' ∙ ap (λ t. reverse (orphans is) ++ t) same),
        In-orphans is,
        reaped_all is s',
      )
