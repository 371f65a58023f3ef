-- ===== src/Import/Chrome.antt =====
-- crates/core/src/import/chrome.rs: the password files of Chrome. The random ids of the new items
-- are an argument, numbered in the order in which they are drawn.
pub mod RoundTrip
use vpn_password_manager.Base.{
  ℕ, suc, ℤ, Text, codes, text_eq, Bool, List, [], ◌∷◌, Option, none, some, is_empty, get_elem?,
  if◌then◌else◌,
}
use vpn_password_manager.Base.Bytes.{Bytes}
use vpn_password_manager.Error.{CoreError, Result, ok}
use vpn_password_manager.Vault.Model.{Item, Login, UrlMatch, UrlMode, new_login}
use vpn_password_manager.Vault.Session.{to_ascii_lowercase}
use vpn_password_manager.Import.Csv

abbrev one_more : Option ℕ → Option ℕ
one_more none = none
one_more (some i) = some (suc i)

-- The first column with this name, whatever its case.
unfoldable pub col : Text → List Text → Option ℕ
unfolding to_ascii_lowercase
col name [] = none
col name (h ∷ header) =
    let rest = one_more (col name header) in
    if text_eq (to_ascii_lowercase h) (to_ascii_lowercase name) then some 0 else rest

unfoldable pub non_empty : Option Text → Option Text
non_empty none = none
non_empty (some s) = if is_empty s then none else some s

unfoldable pub get : List Text → Option ℕ → Option Text
get row none = none
get row (some i) = non_empty (get_elem? row i)

unfoldable pub title_of : Option Text → Option Text → Text
title_of (some name) url = name
title_of none (some url) = url
title_of none none = []

unfoldable pub urls_of : Option Text → List UrlMatch
urls_of none = []
urls_of (some url) = record { url = url; mode = UrlMode.domain } ∷ []

unfoldable pub item_of : List Text → Bytes → ℤ → List Text → Item
item_of header id now row =
    let url = get row (col (codes "url") header) in
    record (new_login id (title_of (get row (col (codes "name") header)) url) now) {
      notes = get row (col (codes "note") header);
      urls = urls_of url;
      login = some (record {
        username = get row (col (codes "username") header);
        password = get row (col (codes "password") header);
        totp = none;
      });
    }

unfoldable pub items_of : List Text → (ℕ → Bytes) → ℕ → ℤ → List (List Text) → List Item
items_of header ids drawn now [] = []
items_of header ids drawn now (row ∷ rows) =
    item_of header (ids drawn) now row ∷ items_of header ids (suc drawn) now rows

unfoldable pub parse_rows : (ℕ → Bytes) → ℤ → List (List Text) → List Item
parse_rows ids now [] = []
parse_rows ids now (header ∷ rows) = items_of header ids 0 now rows

unfoldable pub parse_chrome_csv : (ℕ → Bytes) → Text → ℤ → Result CoreError (List Item)
parse_chrome_csv ids input now = ok (parse_rows ids now (Csv.parse input))
