-- ===== src/Import/Csv.antt =====
-- crates/core/src/import/csv.rs: `parse` and `write`, over code points.
pub mod RoundTrip
use vpn_password_manager.Base.{
  ℕ, Text, Bool, true, false, ◌&&◌, ◌||◌, not, List, [], ◌∷◌, ◌++◌, map, ◌==◌, is_empty, retain,
  any, if◌then◌else◌,
}
use vpn_password_manager.Base.Format.{join}

abbrev pub quote_mark : ℕ
quote_mark = b'"'

abbrev pub comma : ℕ
comma = b','

abbrev pub newline : ℕ
newline = 10

abbrev pub carriage_return : ℕ
carriage_return = 13

-- The trailing field and record, if the file did not end with a newline.
unfoldable pub finish : Text → List Text → List (List Text) → List (List Text)
finish field fields rows =
    if not (is_empty field) || not (is_empty fields)
    then rows ++ ((fields ++ (field ∷ [])) ∷ [])
    else rows

-- The loop: the rest of the input, `in_quotes`, the field, the record and the rows so far.
unfoldable pub scan : Text → Bool → Text → List Text → List (List Text) → List (List Text)
unfolding finish
scan [] in_quotes field fields rows = finish field fields rows
scan (c ∷ []) true field fields rows =
    if c == quote_mark then finish field fields rows else finish (field ++ (c ∷ [])) fields rows
scan (c ∷ d ∷ s) true field fields rows = elim (c == quote_mark) [
  | true ↦ elim (d == quote_mark) [
    | true ↦ scan s true (field ++ (quote_mark ∷ [])) fields rows
    | false ↦ scan (d ∷ s) false field fields rows
  ]
  | false ↦ scan (d ∷ s) true (field ++ (c ∷ [])) fields rows
]
scan (c ∷ s) false field fields rows = elim (c == quote_mark) [
  | true ↦ scan s true field fields rows
  | false ↦ elim (c == comma) [
    | true ↦ scan s false [] (fields ++ (field ∷ [])) rows
    | false ↦ elim (c == carriage_return) [
      | true ↦ scan s false field fields rows
      | false ↦ elim (c == newline) [
        | true ↦ scan s false [] [] (rows ++ ((fields ++ (field ∷ [])) ∷ []))
        | false ↦ scan s false (field ++ (c ∷ [])) fields rows
      ]
    ]
  ]
]

-- A row with one field, which is empty.
unfoldable pub is_blank_line : List Text → Bool
is_blank_line [] = false
is_blank_line (f ∷ []) = is_empty f
is_blank_line (f ∷ g ∷ fs) = false

unfoldable pub parse : Text → List (List Text)
unfolding scan is_blank_line
parse input = retain (λ r. not (is_blank_line r)) (scan input false [] [] [])

unfoldable pub is_special : ℕ → Bool
is_special c = c == comma || c == quote_mark || c == newline || c == carriage_return

-- `replace('"', "\"\"")`.
unfoldable pub escape : Text → Text
escape [] = []
escape (c ∷ s) = if c == quote_mark then quote_mark ∷ quote_mark ∷ escape s else c ∷ escape s

unfoldable pub quote : Text → Text
unfolding is_special escape
quote f = if any is_special f then quote_mark ∷ (escape f ++ (quote_mark ∷ [])) else f

unfoldable pub write : List (List Text) → Text
unfolding quote
write [] = []
write (row ∷ rows) = join (comma ∷ []) (map quote row) ++ (newline ∷ write rows)
