-- ===== src/Health/Audit/Score.antt =====
-- The score of the audit.
use vpn_password_manager.Base.{ℕ, ◌+◌, ◌≤◌, ℤ, Text, List, length, ◌≡◌, arith, ◌↔◌, ◌⊎◌}
use vpn_password_manager.Error.{CoreError, Result}
use vpn_password_manager.Vault.Model.{Item}
use vpn_password_manager.Health.Audit.{AuditReport, count_ids, compute_score, run_audit}

module _ (assess : Text → List Text → ℕ) (breach_count : Text → Result CoreError ℕ) where
  -- How many findings a report has.
  abbrev pub findings : AuditReport → ℕ
  findings r =
      count_ids assess breach_count r.reused + length r.weak + length r.breached + length r.old

  -- The score is at most 100, and it is 100 exactly if there are no items or nothing was found.
  pub run_audit_score :
      (items : List Item) (now : ℤ)
      → let r = run_audit assess breach_count items now in
        (r.score ≤ 100) × ((r.score ≡ 100) ↔ ((length items ≡ 0) ⊎ (findings r ≡ 0)))
  unfolding run_audit compute_score
  run_audit_score items now = ground arith
