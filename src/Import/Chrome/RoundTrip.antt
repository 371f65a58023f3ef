-- ===== src/Import/Chrome/RoundTrip.antt =====
-- A file as Chrome exports it is imported entry by entry.
use vpn_password_manager.Base.{
  ℕ, suc, ℤ, Text, codes, text_eq, List, [], ◌∷◌, none, some, map, retain, ◌≡◌, refl, ap,
}
use vpn_password_manager.Base.Bytes.{Bytes}
use vpn_password_manager.Error.{ok}
use vpn_password_manager.Vault.Model.{Item, new_login}
use vpn_password_manager.Import.Csv.{write}
use vpn_password_manager.Import.Csv.RoundTrip.{has_content, parse-write}
use vpn_password_manager.Import.Chrome.{
  col, non_empty, get, title_of, urls_of, item_of, items_of, parse_rows, parse_chrome_csv,
}

-- An entry of the password manager of Chrome.
pub record Entry : Type 0 where
  pub name : Text
  pub url : Text
  pub username : Text
  pub password : Text
  pub note : Text

abbrev pub export_header : List Text
export_header = codes "name" ∷ codes "url" ∷ codes "username" ∷ codes "password" ∷ codes "note" ∷ []

abbrev pub export_row : Entry → List Text
export_row e = e.name ∷ e.url ∷ e.username ∷ e.password ∷ e.note ∷ []

-- The item of an entry: an empty field is absent, and the URL stands in for a missing name.
unfoldable pub imported : Bytes → ℤ → Entry → Item
imported id now e =
    record (new_login id (title_of (non_empty (some e.name)) (non_empty (some e.url))) now) {
      notes = non_empty (some e.note);
      urls = urls_of (non_empty (some e.url));
      login = some (record {
        username = non_empty (some e.username);
        password = non_empty (some e.password);
        totp = none;
      });
    }

abbrev pub all_imported : (ℕ → Bytes) → ℕ → ℤ → List Entry → List Item
all_imported ids drawn now [] = []
all_imported ids drawn now (e ∷ es) =
    imported (ids drawn) now e ∷ all_imported ids (suc drawn) now es

item_of-export_row :
    (id : Bytes) (now : ℤ) (e : Entry)
    → item_of export_header id now (export_row e) ≡ imported id now e
unfolding item_of imported get col non_empty text_eq
item_of-export_row id now e = refl

items_of-export_row :
    (ids : ℕ → Bytes) (drawn : ℕ) (now : ℤ) (es : List Entry)
    → items_of export_header ids drawn now (map export_row es) ≡ all_imported ids drawn now es
unfolding items_of
items_of-export_row ids drawn now [] = refl
items_of-export_row ids drawn now (e ∷ es) =
    rw (item_of-export_row (ids drawn) now e, items_of-export_row ids (suc drawn) now es) refl

all_kept : (es : List Entry) → retain has_content (map export_row es) ≡ map export_row es
unfolding has_content
all_kept [] = refl
all_kept (e ∷ es) = ap (λ rows. export_row e ∷ rows) (all_kept es)

-- The file with the five columns of Chrome and any entries, whatever their fields hold, is imported
-- to one item for each entry, in their order.
pub parse_chrome_csv-write :
    (ids : ℕ → Bytes) (now : ℤ) (es : List Entry)
    → parse_chrome_csv ids (write (export_header ∷ map export_row es)) now
      ≡ ok (all_imported ids 0 now es)
unfolding parse_chrome_csv parse_rows has_content
parse_chrome_csv-write ids now es =
    rw
      (
        parse-write (export_header ∷ map export_row es),
        all_kept es,
        items_of-export_row ids 0 now es,
      )
      refl
