-- ===== src/Gateway/Report/Csv/Reader.antt =====
-- An independent reader of comma-separated values, with quotes as in RFC 4180 and rows that end at a
-- line feed, reads back what the export writes.
use Prim.Native.Char.{Char, code}
use Prim.Native.String.{char_at}
use text.Mathlib.TextLemmas.{cons-append, nil-append, append-nil, append_assoc}
use mini_banking_app.Common.{
  ◌≡◌, refl, sym, ap, ◌∙◌, ◌⊎◌, inl, inr, arith, String, false, List, [], ◌∷◌, map, drop, map-map,
  ◌==◌, if◌then◌else◌, Bool-cases,
}
use mini_banking_app.Common.Split.{join}
use mini_banking_app.Gateway.Audit.Semantics.{◌^◌}
use mini_banking_app.Gateway.Report.{EnrichedEvent}
use mini_banking_app.Gateway.Report.Csv.{
  csv_columns, cells, has_special, double_quotes, csv_cell, csv_row, csv_document,
}

-- Where the reader is: at the start of a cell, in one without quotes, in one with quotes, and after a
-- quote in one with quotes.
pub data Mode : Type 0 where
  start plain quoted closing : Mode

pub data Action : Type 0 where
  keep skip end_cell end_row : Action

abbrev pub unquoted : Char → Mode × Action
unquoted c =
    if code c == b','
    then (start, end_cell)
    else if code c == 10
    then (start, end_row)
    else (plain, keep)

abbrev pub next : Mode → Char → Mode × Action
next start c = if code c == b'"' then (quoted, skip) else unquoted c
next plain c = unquoted c
next quoted c = if code c == b'"' then (closing, skip) else (quoted, keep)
next closing c = if code c == b'"' then (quoted, keep) else unquoted c

-- The cell that is being read, the cells after it in its row, and the rows after that.
abbrev pub Table : Type 0
Table = String × List String × List (List String)

abbrev pub act : Action → Char → Table → Table
act keep c (cell, row, rows) = (String.◌∷◌ c cell, row, rows)
act skip c table = table
act end_cell c (cell, row, rows) = ("", cell ∷ row, rows)
act end_row c (cell, row, rows) = ("", [], (cell ∷ row) ∷ rows)

abbrev pub read : Mode → String → Table
read mode String.[] = ("", [], [])
read mode (String.◌∷◌ c s) = let step = next mode c in let rest = read step.0 s in act step.1 c rest

abbrev pub whole : Table → List (List String)
whole (cell, row, rows) = (cell ∷ row) ∷ rows

abbrev pub read_csv : String → List (List String)
read_csv s = whole (read start s)

abbrev put : String → Table → Table
put s (cell, row, rows) = (s ^ cell, row, rows)

-- What may follow a cell.
abbrev Boundary : String → Type 0
Boundary String.[] = Unit
Boundary (String.◌∷◌ c s) = (code c ≡ b',') ⊎ (code c ≡ 10)

plain-Boundary : (t : String) → Boundary t → read plain t ≡ read start t
plain-Boundary String.[] h = refl
plain-Boundary (String.◌∷◌ c s) h = let e : (code c == b'"') ≡ false = ground arith in rw e refl

closing-Boundary : (t : String) → Boundary t → read closing t ≡ read start t
closing-Boundary String.[] h = refl
closing-Boundary (String.◌∷◌ c s) h = let e : (code c == b'"') ≡ false = ground arith in rw e refl

put_nil : (t : Table) → put "" t ≡ t
put_nil (cell, row, rows) = ap (λ c. (c, row, rows)) (nil-append cell)

put_cons : (c : Char) (s : String) (t : Table) → act keep c (put s t) ≡ put (String.◌∷◌ c s) t
put_cons c s (cell, row, rows) = ap (λ x. (x, row, rows)) (sym (cons-append c s cell))

read_plain : (s t : String) → has_special s ≡ false → read plain (s ^ t) ≡ put s (read plain t)
read_plain String.[] t h = ap (read plain) (nil-append t) ∙ sym (put_nil (read plain t))
read_plain (String.◌∷◌ c s) t h =
    let e₁ : (code c == b',') ≡ false = ground arith in
    let e₂ : (code c == 10) ≡ false = ground arith in
    let rest = read_plain s t (ground arith) in
    ap (read plain) (cons-append c s t)
    ∙ rw (e₁, e₂) (ap (act keep c) rest ∙ put_cons c s (read plain t))

read_start :
    (s t : String) → has_special s ≡ false → Boundary t → read start (s ^ t) ≡ put s (read start t)
read_start String.[] t h b = ap (read start) (nil-append t) ∙ sym (put_nil (read start t))
read_start (String.◌∷◌ c s) t h b =
    let e₁ : (code c == b',') ≡ false = ground arith in
    let e₂ : (code c == 10) ≡ false = ground arith in
    let e₃ : (code c == b'"') ≡ false = ground arith in
    let rest = read_plain s t (ground arith) in
    ap (read start) (cons-append c s t)
    ∙ rw (e₃, e₁, e₂)
        (ap (act keep c) (rest ∙ ap (put s) (plain-Boundary t b)) ∙ put_cons c s (read start t))

after_char : (c : Char) (t : String) → String.◌∷◌ c "" ^ t ≡ String.◌∷◌ c t
after_char c t = cons-append c "" t ∙ ap (λ r. String.◌∷◌ c r) (nil-append t)

read_quoted : (s t : String) → read quoted (double_quotes s ^ ("\"" ^ t)) ≡ put s (read closing t)
read_quoted String.[] t =
    ap (read quoted) (nil-append _ ∙ after_char (char_at "\"" 0) t) ∙ sym (put_nil (read closing t))
read_quoted (String.◌∷◌ c s) t = elim (Bool-cases (code c == b'"')) [
  | inl e ↦ rw e (
      ap (read quoted) (cons-append c _ _ ∙ ap (λ r. String.◌∷◌ c r) (cons-append c _ _))
      ∙ rw (e, e) (ap (act keep c) (read_quoted s t) ∙ put_cons c s (read closing t)))
  | inr e ↦ rw e (
      ap (read quoted) (cons-append c _ _)
      ∙ rw e (ap (act keep c) (read_quoted s t) ∙ put_cons c s (read closing t)))
]

read_cell : (s t : String) → Boundary t → read start (csv_cell s ^ t) ≡ put s (read start t)
read_cell s t b = elim (Bool-cases (has_special s)) [
  | inr e ↦ rw e (read_start s t e b)
  | inl e ↦ rw e (
      ap (read start) (append_assoc "\"" _ t ∙ after_char (char_at "\"" 0) _)
      ∙ ap (read quoted) (append_assoc (double_quotes s) "\"" t)
      ∙ read_quoted s t
      ∙ ap (put s) (closing-Boundary t b))
]

-- The cells of a row, before what follows the row.
add_cells : String → List String → Table → Table
add_cells x [] t = put x t
add_cells x (y ∷ ys) t = put x (act end_cell (char_at "," 0) (add_cells y ys t))

read_row :
    (x : String) (xs : List String) (t : String)
    → Boundary t
    → read start (csv_row (x ∷ xs) ^ t) ≡ add_cells x xs (read start t)
unfolding add_cells
read_row x [] t b = read_cell x t b
read_row x (y ∷ ys) t b =
    ap (read start) (
      append_assoc (csv_cell x) _ t
      ∙ ap (csv_cell x ^◌) (append_assoc "," (csv_row (y ∷ ys)) t ∙ after_char (char_at "," 0) _))
    ∙ read_cell x (String.◌∷◌ (char_at "," 0) (csv_row (y ∷ ys) ^ t)) (inl refl)
    ∙ ap (λ r. put x (act end_cell (char_at "," 0) r)) (read_row y ys t b)

added :
    (x : String) (xs : List String) (rows : List (List String))
    → add_cells x xs ("", [], rows) ≡ (x, xs, rows)
unfolding add_cells
added x [] rows = ap (λ c. (c, [], rows)) (append-nil x)
added x (y ∷ ys) rows =
    ap (λ r. put x (act end_cell (char_at "," 0) r)) (added y ys rows)
    ∙ ap (λ c. (c, y ∷ ys, rows)) (append-nil x)

-- Rows that have a first cell.
row_of : String × List String → List String
row_of (x, xs) = x ∷ xs

read_rows :
    (row : String × List String) (rows : List (String × List String))
    → read_csv (join "\n" (map (λ r. csv_row (row_of r)) (row ∷ rows))) ≡ map row_of (row ∷ rows)
unfolding row_of
read_rows (x, xs) [] =
    ap read_csv (sym (append-nil (csv_row (x ∷ xs))))
    ∙ ap whole (read_row x xs "" tt ∙ added x xs [])
read_rows (x, xs) ((y, ys) ∷ rows) =
    let rest = read_rows (y, ys) rows in
    ap read_csv (ap (csv_row (x ∷ xs) ^◌) (after_char (char_at "\n" 0) _))
    ∙ ap whole (read_row x xs (String.◌∷◌ (char_at "\n" 0) _) (inr refl) ∙ added x xs _)
    ∙ ap (λ r. (x ∷ xs) ∷ r) rest

module _ {J : Type 0} where
  event_row : EnrichedEvent J → String × List String
  event_row e = (e.event.timestamp, drop 1 (cells e))

  -- The reader gives back, from an exported document, the columns and then for each event its cells,
  -- whatever quotes, commas and line feeds they have.
  pub read_csv-csv_document :
      (events : List (EnrichedEvent J))
      → read_csv (csv_document events) ≡ csv_columns ∷ map cells events
  unfolding csv_document event_row row_of
  read_csv-csv_document events =
      ap (λ rows. read_csv (join "\n" (join "," csv_columns ∷ rows)))
        (sym (map-map event_row (λ r. csv_row (row_of r)) events))
      ∙ read_rows ("timestamp", drop 1 csv_columns) (map event_row events)
      ∙ ap (csv_columns ∷◌) (map-map event_row row_of events)
