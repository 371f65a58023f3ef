-- ===== src/Vault/Store/Tests.antt =====
-- The theorems on the store and its merge at concrete vaults.
use vpn_password_manager.Base.{
  ℕ, ◌+◌, pos, List, [], ◌∷◌, none, some, ◌≡◌, refl, subst, text_eq, inl, arith,
}
use vpn_password_manager.Base.Assoc.{lookup, insert, remove}
use vpn_password_manager.Base.Bytes.{Bytes, from_le, i64_of_bits, i64_from_le}
use vpn_password_manager.Error.{ok}
use vpn_password_manager.Vault.Session.{}
use vpn_password_manager.Vault.Envelope.{envelope_meta}
use vpn_password_manager.Vault.Envelope.RoundTrip.{}
use vpn_password_manager.Vault.Document
use vpn_password_manager.Vault.Document.{
  Base64, VaultDocument, DocumentCodec, encode_sync_blob, decode_sync_blob,
}
use vpn_password_manager.Vault.Store.{
  Row, LocalVault, MergeReport, empty_vault, empty_report, upsert, delete, count, to_document,
  merge_item, merge_items, merge_tombstone, merge_tombstones, merge,
}
use vpn_password_manager.Vault.Store.Merge.{
  AtLeast, Covers, merged, merge_items-Covers, merge_items_twice,
}
use vpn_password_manager.Vault.Store.Invariant.{
  IsValid, empty_vault-IsValid, upsert-IsValid, delete-IsValid, merge-IsValid,
}
use vpn_password_manager.Vault.Store.Deletion.{merge-Balanced, merge_undeletes}
use vpn_password_manager.Vault.Store.Restore.{restore_lem}
use vpn_password_manager.Vault.Samples.{same_text, bank_id, env_at, their_document}

-- A vault with the item at time 5.
abbrev one_item : LocalVault
one_item = record {
  items = (bank_id, record { envelope = env_at 5; updated_at = pos 5 }) ∷ [];
  tombstones = [];
}

one_item_upserted : upsert empty_vault (env_at 5) ≡ ok one_item
unfolding upsert envelope_meta insert remove i64_from_le i64_of_bits from_le
one_item_upserted = refl

one_item-IsValid : IsValid one_item
one_item-IsValid =
    upsert-IsValid empty_vault empty_vault-IsValid (env_at 5) one_item one_item_upserted

one_item-AtLeast : AtLeast one_item bank_id (pos 5)
unfolding lookup text_eq
one_item-AtLeast = (record { envelope = env_at 5; updated_at = pos 5 }, refl, omega arith)

abbrev newer : List Bytes
newer = env_at 9 ∷ env_at 7 ∷ []

abbrev one_update : MergeReport
one_update = record { added = 0; updated = 1; deleted = 0; conflicts = 1 }

newer_merged : (merge_items one_item empty_report newer).1 ≡ ok one_update
unfolding merge_items envelope_meta merge_item lookup text_eq i64_from_le i64_of_bits from_le insert
newer_merged = refl

merge_items-Covers_example : Covers (merged one_item empty_report newer) newer
merge_items-Covers_example = merge_items-Covers newer one_item empty_report one_update newer_merged

merge_items_twice_example :
    (merge_items (merge_items one_item empty_report newer).0 one_update newer).0
    ≡ (merge_items one_item empty_report newer).0
merge_items_twice_example =
    merge_items_twice newer one_item empty_report one_update one_update newer_merged

abbrev row_at : ℕ → Row
row_at t = record { envelope = env_at t; updated_at = pos t }

newest_found : lookup bank_id (merged one_item empty_report newer).items ≡ some (row_at 9)
unfolding lookup merge_items envelope_meta merge_item text_eq i64_from_le i64_of_bits from_le insert
newest_found = refl

-- Another device still has the item; this one deleted it at time 8.
abbrev item_deleted : LocalVault
item_deleted = record { items = []; tombstones = (bank_id, pos 8) ∷ [] }

deleted_here : delete one_item bank_id (pos 8) ≡ item_deleted
unfolding delete remove insert text_eq
deleted_here = refl

item_deleted-IsValid : IsValid item_deleted
item_deleted-IsValid =
    subst IsValid deleted_here (delete-IsValid one_item one_item-IsValid bank_id (pos 8))

abbrev one_addition : MergeReport
one_addition = record { added = 1; updated = 0; deleted = 0; conflicts = 0 }

theirs_merged : (merge same_text item_deleted their_document).1 ≡ ok one_addition
unfolding merge Document.envelopes merge_items envelope_meta merge_tombstones merge_item lookup
theirs_merged = refl

theirs_decoded : Document.envelopes same_text their_document ≡ ok (env_at 5 ∷ [])
unfolding Document.envelopes
theirs_decoded = refl

header_at_5 : envelope_meta (env_at 5) ≡ ok (bank_id, pos 5)
unfolding envelope_meta i64_from_le i64_of_bits from_le
header_at_5 = refl

merge_undeletes_example :
    AtLeast (merge same_text item_deleted their_document).0 bank_id (pos 5)
    × (lookup bank_id (merge same_text item_deleted their_document).0.tombstones ≡ none)
merge_undeletes_example =
    merge_undeletes same_text item_deleted their_document one_addition (env_at 5 ∷ []) (env_at 5)
      bank_id (pos 5) item_deleted-IsValid theirs_decoded (inl refl) header_at_5 tt theirs_merged

merge-IsValid_example : IsValid (merge same_text item_deleted their_document).0
merge-IsValid_example = merge-IsValid same_text item_deleted their_document item_deleted-IsValid

-- A document that deletes the item at time 6.
abbrev deleting_document : VaultDocument
deleting_document = record { format = 1; items = []; tombstones = (bank_id, pos 6) ∷ [] }

abbrev one_deletion : MergeReport
one_deletion = record { added = 0; updated = 0; deleted = 1; conflicts = 0 }

deletion_merged : (merge same_text one_item deleting_document).1 ≡ ok one_deletion
unfolding merge Document.envelopes merge_items merge_tombstones merge_tombstone lookup text_eq
deletion_merged = refl

merge-Balanced_example :
    count (merge same_text one_item deleting_document).0 + one_deletion.deleted
    ≡ count one_item + one_deletion.added
merge-Balanced_example =
    merge-Balanced same_text one_item deleting_document one_deletion one_item-IsValid
      deletion_merged

restore_lem_example :
    let r = merge same_text empty_vault (to_document same_text one_item) in
    ((q : MergeReport) × (r.1 ≡ ok q))
    × ((id : Bytes) → lookup id r.0.items ≡ lookup id one_item.items)
restore_lem_example = restore_lem same_text one_item one_item-IsValid
