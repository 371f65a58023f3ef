-- ===== src/Import/Tests.antt =====
-- The theorems on CSV files at rows with a quote, a comma and a line end in their fields.
use vpn_password_manager.Base.{pos, Text, codes, List, [], ◌∷◌, ◌++◌, ◌≡◌, retain}
use vpn_password_manager.Error.{ok}
use vpn_password_manager.Import.Chrome.{parse_chrome_csv}
use vpn_password_manager.Import.Chrome.RoundTrip.{
  Entry, export_header, export_row, imported, parse_chrome_csv-write,
}
use vpn_password_manager.Import.Csv.{parse, write}
use vpn_password_manager.Import.Csv.RoundTrip.{has_content, parse-write}

abbrev rows : List (List Text)
rows =
    (codes "name" ∷ codes "note" ∷ [])
    ∷ (codes "a, b" ∷ (codes "say " ++ (b'"' ∷ codes "hi" ++ (b'"' ∷ 10 ∷ []))) ∷ [])
    ∷ ([] ∷ [])
    ∷ []

parse-write_example : parse (write rows) ≡ retain has_content rows
parse-write_example = parse-write rows

abbrev web : Entry
web = record {
  name = codes "Web";
  url = codes "https://example.com/?q=a,b";
  username = codes "me";
  password = b'"' ∷ codes "x";
  note = [];
}

parse_chrome_csv-write_example :
    parse_chrome_csv (λ n. n ∷ []) (write (export_header ∷ export_row web ∷ [])) (pos 7)
    ≡ ok (imported (0 ∷ []) (pos 7) web ∷ [])
parse_chrome_csv-write_example = parse_chrome_csv-write (λ n. n ∷ []) (pos 7) (web ∷ [])
