-- ===== src/Vault/Store.antt =====
-- crates/core/src/vault/store.rs: the local vault, two tables with the item id as primary key.
-- The rows of a table stand in the order of insertion. An SQL statement is taken to succeed; the
-- `meta` table and the opening of the file are left out.
pub mod Merge
pub mod Invariant
pub mod Deletion
pub mod Snapshot
pub mod Restore
mod Tests
use vpn_password_manager.Base.{
  ℕ, ◌+◌, ℤ, leb_ℤ, ltb_ℤ, Text, Bool, List, [], ◌∷◌, Option, none, some, map, length, retain,
  ==_iff, ◌==◌, if◌then◌else◌,
}
use vpn_password_manager.Base.Assoc.{Assoc, lookup, insert, remove}
use vpn_password_manager.Base.Bytes.{Bytes}
use vpn_password_manager.Error.{CoreError, Result, ok, err, ◌>>=◌}
use vpn_password_manager.Vault.Envelope.{envelope_meta}
use vpn_password_manager.Vault.Document
use vpn_password_manager.Vault.Document.{Base64, VaultDocument}

pub record Row : Type 0 where
  pub envelope : Bytes
  pub updated_at : ℤ

pub record LocalVault : Type 0 where
  pub items : Assoc Row
  pub tombstones : Assoc ℤ

pub record MergeReport : Type 0 where
  pub added : ℕ
  pub updated : ℕ
  pub deleted : ℕ
  pub conflicts : ℕ

abbrev pub empty_report : MergeReport
empty_report = record { added = 0; updated = 0; deleted = 0; conflicts = 0 }

abbrev pub empty_vault : LocalVault
empty_vault = record { items = []; tombstones = [] }

-- What `upsert` writes once the header of the envelope is read.
unfoldable pub upsert_row : LocalVault → Bytes → Row → LocalVault
upsert_row v id row = record { items = insert id row v.items; tombstones = remove id v.tombstones }

unfoldable pub upsert : LocalVault → Bytes → Result CoreError LocalVault
unfolding upsert_row
upsert v env = do
  meta ← envelope_meta env
  ok (upsert_row v meta.0 (record { envelope = env; updated_at = meta.1 }))

unfoldable pub get : LocalVault → Bytes → Option Bytes
get v id = elim (lookup id v.items) [ none ↦ none | some row ↦ some row.envelope ]

-- ORDER BY updated_at DESC; rows of one time keep their order.
unfoldable pub insert_newest : Row → List Row → List Row
insert_newest r [] = r ∷ []
insert_newest r (s ∷ rest) =
    if leb_ℤ s.updated_at r.updated_at then r ∷ s ∷ rest else s ∷ insert_newest r rest

unfoldable pub newest_first : List Row → List Row
unfolding insert_newest
newest_first [] = []
newest_first (r ∷ rest) = insert_newest r (newest_first rest)

unfoldable pub list_envelopes : LocalVault → List Bytes
list_envelopes v = map (λ (r : Row). r.envelope) (newest_first (map (λ e. e.1) v.items))

unfoldable pub delete : LocalVault → Bytes → ℤ → LocalVault
delete v id deleted_at = record {
  items = remove id v.items;
  tombstones = insert id deleted_at v.tombstones;
}

unfoldable pub count : LocalVault → ℕ
count v = length v.items

-- A tombstone whose id has not 16 bytes is dropped.
abbrev has_uuid : Bytes × ℤ → Bool
has_uuid (id, ts) = length id == 16

unfoldable pub to_document : Base64 → LocalVault → VaultDocument
to_document b64 v = Document.from_envelopes b64 (list_envelopes v) (retain has_uuid v.tombstones)

-- The body of the first loop of `merge`, for an envelope with this header.
unfoldable pub merge_item : LocalVault → MergeReport → Bytes → Row → LocalVault × MergeReport
unfolding upsert_row
merge_item v r id row = elim (lookup id v.items) [
  | none ↦ (upsert_row v id row, record r { added = r.added + 1 })
  | some local ↦
      if ltb_ℤ local.updated_at row.updated_at
      then (upsert_row v id row, record r { updated = r.updated + 1 })
      else if ltb_ℤ row.updated_at local.updated_at
      then (v, record r { conflicts = r.conflicts + 1 })
      else (v, r)
]

-- An envelope without a header ends the merge; what was written before stays written.
unfoldable pub merge_items :
    LocalVault → MergeReport → List Bytes → LocalVault × Result CoreError MergeReport
merge_items v r [] = (v, ok r)
merge_items v r (env ∷ envs) = elim (envelope_meta env) [
  | err e ↦ (v, err e)
  | ok (id, ts) ↦
      merge_items (merge_item v r id (record { envelope = env; updated_at = ts })).0
        (merge_item v r id (record { envelope = env; updated_at = ts })).1 envs
]

-- The body of the second loop.
unfoldable pub merge_tombstone : LocalVault → MergeReport → Bytes → ℤ → LocalVault × MergeReport
unfolding delete
merge_tombstone v r id deleted_at = elim (lookup id v.items) [
  | none ↦ (v, r)
  | some local ↦
      if leb_ℤ local.updated_at deleted_at
      then (delete v id deleted_at, record r { deleted = r.deleted + 1 })
      else (v, r)
]

unfoldable pub merge_tombstones :
    LocalVault → MergeReport → List (Bytes × ℤ) → LocalVault × MergeReport
merge_tombstones v r [] = (v, r)
merge_tombstones v r ((id, deleted_at) ∷ ts) =
    merge_tombstones (merge_tombstone v r id deleted_at).0 (merge_tombstone v r id deleted_at).1 ts

-- The second loop runs if the first did not fail.
unfoldable pub then_tombstones :
    LocalVault × Result CoreError MergeReport
    → List (Bytes × ℤ)
    → LocalVault × Result CoreError MergeReport
then_tombstones (v, err e) ts = (v, err e)
then_tombstones (v, ok r) ts = let (v', r') = merge_tombstones v r ts in (v', ok r')

unfoldable pub merge :
    Base64 → LocalVault → VaultDocument → LocalVault × Result CoreError MergeReport
unfolding then_tombstones
merge b64 v remote = elim (Document.envelopes b64 remote) [
  | err e ↦ (v, err e)
  | ok envs ↦ then_tombstones (merge_items v empty_report envs) remote.tombstones
]
