-- ===== src/Health/Tests.antt =====
-- The theorems on the audit at three items, two of which share a password.
use vpn_password_manager.Base.{
  ℕ, ◌≤◌, ℤ, pos, Text, codes, List, [], ◌∷◌, none, some, length, In, ◌≡◌, refl, ◌↔◌, ◌⊎◌,
}
use vpn_password_manager.Error.{CoreError, Result, ok}
use vpn_password_manager.Vault.Model.{Item, ItemType}
use vpn_password_manager.Health.Audit.{ReusedGroup, group_of, run_audit}
use vpn_password_manager.Health.Audit.Reused.{ids_of, run_audit_reused}

abbrev item : ℕ → Text → Item
item id pw = record {
  id = id ∷ [];
  item_type = ItemType.login;
  title = codes "t";
  tags = [];
  urls = [];
  notes = none;
  custom_fields = [];
  login = some (record { username = none; password = some pw; totp = none });
  card = none;
  identity = none;
  passkey = none;
  created_at = pos 0;
  updated_at = pos 0;
  password_changed_at = some (pos 0);
}

abbrev items : List Item
items = item 1 (codes "a") ∷ item 2 (codes "b") ∷ item 3 (codes "a") ∷ []

abbrev strong : Text → List Text → ℕ
strong pw inputs = 4

abbrev unbreached : Text → Result CoreError ℕ
unbreached pw = ok 0

found :
    (run_audit strong unbreached items (pos 17280000)).reused
    ≡ group_of ((1 ∷ []) ∷ (3 ∷ []) ∷ []) ∷ []
unfolding run_audit vpn_password_manager.Health.Audit.audit_items
    vpn_password_manager.Health.Audit.audit_item vpn_password_manager.Vault.Model.password
    vpn_password_manager.Health.Audit.audit_one vpn_password_manager.Health.Audit.find_reused
    vpn_password_manager.Health.Audit.group_by_password vpn_password_manager.Health.Audit.push_id
    vpn_password_manager.Base.Assoc.insert vpn_password_manager.Base.text_eq
    vpn_password_manager.Base.Assoc.lookup
found = refl

run_audit_reused_example :
    let groups = (run_audit strong unbreached items (pos 9)).reused in
    ((g : ReusedGroup)
      → In g groups
      → (pw : Text) × (g.item_ids ≡ ids_of pw items) × (2 ≤ length g.item_ids))
    × ((pw : Text) → 2 ≤ length (ids_of pw items) → In (group_of (ids_of pw items)) groups)
run_audit_reused_example = run_audit_reused strong unbreached items (pos 9)
