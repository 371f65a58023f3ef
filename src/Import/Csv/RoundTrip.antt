-- ===== src/Import/Csv/RoundTrip.antt =====
-- What `write` writes, `parse` reads back, whatever characters the fields hold.
use vpn_password_manager.Base.{
  ℕ, Text, Bool, true, false, not, List, [], ◌∷◌, ◌++◌, map, ◌==◌, is_empty, retain, any, ◌≡◌, refl,
  ap, ◌∙◌, sym, append_assoc, append-nil, Bool-cases, ==_iff, inl, inr, ◌⊎◌, arith,
}
use vpn_password_manager.Base.Format.{join}
use vpn_password_manager.Import.Csv.{
  quote_mark, comma, newline, finish, scan, is_blank_line, parse, is_special, escape, quote, write,
}

-- Characters outside quotes that are not special go to the field.
scan_plain :
    (f s field : Text) (fields : List Text) (rows : List (List Text))
    → any is_special f ≡ false
    → scan (f ++ s) false field fields rows ≡ scan s false (field ++ f) fields rows
unfolding scan is_special
scan_plain [] s field fields rows h = rw append-nil
scan_plain (c ∷ f) s field fields rows h =
    ground (arith, scan_plain f s (field ++ (c ∷ [])) fields rows, append_assoc field (c ∷ []) f)

-- What ends a field.
abbrev Ends : ℕ → Type 0
Ends d = (d ≡ comma) ⊎ (d ≡ newline)

module _ (field : Text) (fields : List Text) (rows : List (List Text)) where
  scan_closing :
      (d : ℕ) (s : Text)
      → Ends d
      → scan (quote_mark ∷ d ∷ s) true field fields rows ≡ scan (d ∷ s) false field fields rows
  unfolding scan
  scan_closing d s e = ground arith

  scan_doubled :
      (s : Text)
      → scan (quote_mark ∷ quote_mark ∷ s) true field fields rows
        ≡ scan s true (field ++ (quote_mark ∷ [])) fields rows
  unfolding scan
  scan_doubled s = refl

  scan_inside :
      (c : ℕ) (s : Text)
      → (c == quote_mark) ≡ false
      → scan (c ∷ s) true field fields rows ≡ scan s true (field ++ (c ∷ [])) fields rows
  unfolding scan
  scan_inside c [] h = rw h
  scan_inside c (d ∷ s) h = ground arith

  scan-comma :
      (s : Text)
      → scan (comma ∷ s) false field fields rows ≡ scan s false [] (fields ++ (field ∷ [])) rows
  unfolding scan
  scan-comma s = refl

  scan-newline :
      (s : Text)
      → scan (newline ∷ s) false field fields rows
        ≡ scan s false [] [] (rows ++ ((fields ++ (field ∷ [])) ∷ []))
  unfolding scan
  scan-newline s = refl

  scan_opening :
      (s : Text) → scan (quote_mark ∷ s) false field fields rows ≡ scan s true field fields rows
  unfolding scan
  scan_opening s = refl

-- Inside quotes the escaped text up to the closing quote goes to the field.
scan_quoted :
    (f s field : Text) (d : ℕ) (fields : List Text) (rows : List (List Text))
    → Ends d
    → scan (escape f ++ (quote_mark ∷ d ∷ s)) true field fields rows
      ≡ scan (d ∷ s) false (field ++ f) fields rows
unfolding escape
scan_quoted [] s field d fields rows e = scan_closing field fields rows d s e ∙ rw append-nil
scan_quoted (c ∷ f) s field d fields rows e =
    let rest = escape f ++ (quote_mark ∷ d ∷ s) in
    let next = scan_quoted f s (field ++ (c ∷ [])) d fields rows e in
    let together = ap (λ x. scan (d ∷ s) false x fields rows) (append_assoc field (c ∷ []) f) in
    elim (Bool-cases (c == quote_mark)) [
      | inl q ↦
          let same : c ≡ quote_mark = (==_iff c quote_mark).0 q in
          rw q (
            scan_doubled field fields rows rest
            ∙ ap (λ x. scan rest true (field ++ (x ∷ [])) fields rows) (sym same)
            ∙ next
            ∙ together)
      | inr o ↦ rw o (scan_inside field fields rows c rest o ∙ next ∙ together)
    ]

-- A written field, before what ends it, is read as the field.
scan-quote :
    (f s : Text) (d : ℕ) (fields : List Text) (rows : List (List Text))
    → Ends d
    → scan (quote f ++ (d ∷ s)) false [] fields rows ≡ scan (d ∷ s) false f fields rows
unfolding quote
scan-quote f s d fields rows e = elim (Bool-cases (any is_special f)) [
  | inl special ↦
      rw special
        (scan_opening [] fields rows _ ∙ rw append_assoc (scan_quoted f s [] d fields rows e))
  | inr plain ↦ rw plain (scan_plain f (d ∷ s) [] fields rows plain)
]

-- A written line is read as its fields.
scan-line :
    (f : Text) (fs fields : List Text) (s : Text) (rows : List (List Text))
    → scan (join (comma ∷ []) (map quote (f ∷ fs)) ++ (newline ∷ s)) false [] fields rows
      ≡ scan s false [] [] (rows ++ ((fields ++ (f ∷ fs)) ∷ []))
unfolding join
scan-line f [] fields s rows =
    scan-quote f s newline fields rows (inr refl) ∙ scan-newline f fields rows s
scan-line f (g ∷ fs) fields s rows = rw (append_assoc (quote f)) (
    scan-quote f _ comma fields rows (inl refl)
    ∙ scan-comma f fields rows _
    ∙ scan-line g fs (fields ++ (f ∷ [])) s rows
    ∙ rw append_assoc)

-- An empty row is written as an empty line, which is read as a row of one empty field.
abbrev as_read : List Text → List Text
as_read [] = [] ∷ []
as_read (f ∷ fs) = f ∷ fs

scan-empty_line :
    (s : Text) (done : List (List Text))
    → scan (join (comma ∷ []) [] ++ (newline ∷ s)) false [] [] done
      ≡ scan s false [] [] (done ++ (([] ∷ []) ∷ []))
unfolding join
scan-empty_line s done = scan-newline [] [] done s

scan-write :
    (rows done : List (List Text)) → scan (write rows) false [] [] done ≡ done ++ map as_read rows
unfolding write
scan-write [] done = unfold scan finish in sym (append-nil done)
scan-write ([] ∷ rows) done =
    scan-empty_line (write rows) done
    ∙ scan-write rows (done ++ (([] ∷ []) ∷ []))
    ∙ append_assoc done (([] ∷ []) ∷ []) (map as_read rows)
scan-write ((f ∷ fs) ∷ rows) done =
    scan-line f fs [] (write rows) done
    ∙ scan-write rows (done ++ ((f ∷ fs) ∷ []))
    ∙ append_assoc done ((f ∷ fs) ∷ []) (map as_read rows)

-- A row that is neither empty nor one empty field.
unfoldable pub has_content : List Text → Bool
has_content [] = false
has_content (f ∷ []) = not (is_empty f)
has_content (f ∷ g ∷ fs) = true

retain-as_read :
    (rows : List (List Text))
    → retain (λ r. not (is_blank_line r)) (map as_read rows) ≡ retain has_content rows
unfolding has_content is_blank_line
retain-as_read [] = refl
retain-as_read ([] ∷ rows) = retain-as_read rows
retain-as_read ((f ∷ []) ∷ rows) = ground (arith, retain-as_read rows)
retain-as_read ((f ∷ g ∷ fs) ∷ rows) = ground (arith, retain-as_read rows)

-- Whatever characters the fields hold, quotes, commas and line ends included, parsing what was
-- written gives the rows back, without those that are empty or hold one empty field.
pub parse-write : (rows : List (List Text)) → parse (write rows) ≡ retain has_content rows
unfolding parse
parse-write rows = rw (scan-write rows []) (retain-as_read rows)
