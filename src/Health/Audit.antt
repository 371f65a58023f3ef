-- ===== src/Health/Audit.antt =====
-- crates/core/src/health/audit.rs: reused, weak, old and breached passwords, and the score. The
-- strength estimate and the breach lookup are parameters; the hash map's groups stand in the order
-- in which their passwords first occur. The counts are taken to fit an `i32`, the times an `i64`.
pub mod Reused
pub mod Score
use vpn_password_manager.Base.{
  ℕ, zero, suc, ◌+◌, ◌-◌, ◌*◌, ◌/◌, ℤ, pos, negsuc, ◌-ℤ◌, ltb_ℤ, Text, Bool, true, false, List, [],
  ◌∷◌, ◌++◌, Option, none, some, length, ltb, map, retain, is_empty, if◌then◌else◌,
}
use vpn_password_manager.Base.Assoc.{Assoc, lookup, insert, values}
use vpn_password_manager.Base.Bytes.{Bytes}
use vpn_password_manager.Error.{CoreError, Result, ok, err}
use vpn_password_manager.Vault.Model.{Item, password, username}

pub record ReusedGroup : Type 0 where
  pub item_ids : List Bytes

pub record AuditReport : Type 0 where
  pub reused : List ReusedGroup
  pub weak : List (Bytes × ℕ)
  pub old : List (Bytes × ℤ)
  pub breached : List (Bytes × ℕ)
  pub score : ℕ

abbrev pub old_threshold_days : ℤ
old_threshold_days = pos 180

abbrev secs_per_day : ℕ
secs_per_day = 86400

abbrev negated : ℕ → ℤ
negated zero = pos 0
negated (suc n) = negsuc n

-- Division of an `i64`, which rounds towards zero.
unfoldable pub div_ℤ : ℤ → ℕ → ℤ
div_ℤ (pos n) d = pos (n / d)
div_ℤ (negsuc n) d = negated (suc n / d)

abbrev pub ids_at : Option (List Bytes) → List Bytes
ids_at none = []
ids_at (some ids) = ids

-- `entry(pw).or_default().push(id)`.
unfoldable pub push_id : Option Text → Bytes → Assoc (List Bytes) → Assoc (List Bytes)
push_id none id groups = groups
push_id (some pw) id groups = insert pw (ids_at (lookup pw groups) ++ (id ∷ [])) groups

unfoldable pub group_by_password : List Item → Assoc (List Bytes) → Assoc (List Bytes)
group_by_password [] groups = groups
group_by_password (it ∷ items) groups = group_by_password items (push_id (password it) it.id groups)

abbrev pub group_of : List Bytes → ReusedGroup
group_of ids = record { item_ids = ids }

unfoldable pub find_reused : List Item → List ReusedGroup
find_reused items =
    map group_of (retain (λ ids. ltb 1 (length ids)) (values (group_by_password items [])))

-- The title stands behind the user name among the inputs of the estimate.
unfoldable pub user_inputs : Item → List Text
user_inputs it = elim (username it) [ none ↦ it.title ∷ [] | some u ↦ u ∷ it.title ∷ [] ]

-- The age, if it is over the threshold.
unfoldable pub old_of : ℤ → Item → List (Bytes × ℤ)
old_of now it = elim it.password_changed_at [
  | none ↦ []
  | some changed ↦
      let age_days = div_ℤ (now -ℤ changed) secs_per_day in
      if ltb_ℤ old_threshold_days age_days then (it.id, age_days) ∷ [] else []
]

module _ (assess : Text → List Text → ℕ) (breach_count : Text → Result CoreError ℕ) where
  unfoldable pub weak_of : Text → Item → List (Bytes × ℕ)
  weak_of pw it =
      let score = assess pw (user_inputs it) in if ltb score 3 then (it.id, score) ∷ [] else []

  -- A lookup that fails is passed over.
  unfoldable pub breached_of : Text → Item → List (Bytes × ℕ)
  breached_of pw it = elim (breach_count pw) [
    | err e ↦ []
    | ok count ↦ if ltb 0 count then (it.id, count) ∷ [] else []
  ]

  -- The body of the second loop, for an item with a password.
  unfoldable pub audit_one : ℤ → Text → Item → AuditReport → AuditReport
  audit_one now pw it r = record r {
    weak = r.weak ++ weak_of pw it;
    old = r.old ++ old_of now it;
    breached = r.breached ++ breached_of pw it;
  }

  unfoldable pub audit_item : ℤ → Item → AuditReport → AuditReport
  audit_item now it r = elim (password it) [ none ↦ r | some pw ↦ audit_one now pw it r ]

  unfoldable pub audit_items : ℤ → List Item → AuditReport → AuditReport
  audit_items now [] r = r
  audit_items now (it ∷ items) r = audit_items now items (audit_item now it r)

  abbrev pub count_ids : List ReusedGroup → ℕ
  count_ids [] = 0
  count_ids (g ∷ gs) = length g.item_ids + count_ids gs

  -- Subtraction on these numbers stops at 0, where the code clamps.
  unfoldable pub compute_score : ℕ → AuditReport → ℕ
  compute_score total_items r =
      if ltb 0 total_items
      then 100
        - (count_ids r.reused * 8 + length r.weak * 6 + length r.breached * 12 + length r.old * 3)
      else 100

  unfoldable pub run_audit : List Item → ℤ → AuditReport
  run_audit items now =
      let start : AuditReport = record {
        reused = find_reused items;
        weak = [];
        old = [];
        breached = [];
        score = 0;
      } in
      let r = audit_items now items start in record r { score = compute_score (length items) r }
