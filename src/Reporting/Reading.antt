-- ===== src/Reporting/Reading.antt =====
-- A reader of comma-separated values, as RFC 4180 describes them, and that it reads back what the
-- exporter writes.
use mathlib.Core.List.{append_assoc, append-nil}
use enterprise_vault_migrati.Prelude.{
  ==_iff, ℕ, ◌==◌, ◌≡◌, refl, sym, ap, ◌∙◌, Bool, false, List, [], ◌∷◌, ◌++◌, map, arith,
  if◌then◌else◌, any_of, concat_map, Bool-cases, inl, inr,
}
use enterprise_vault_migrati.Runtime.{Runtime}
use enterprise_vault_migrati.Contracts.{ExecutionReport, ErrorBreakdownEntry}
use enterprise_vault_migrati.Reporting.Csv.{
  comma, quote, newline, csv_header, build_row, execution_report_to_csv, needs_quotes, doubled,
  write_cell, write_cells, write_row,
}

-- Where a reader stands in a cell; `closing` is behind a quote inside quotes.
pub data Mode : Type 0 where
  at_start unquoted quoted closing : Mode

pub record Reader : Type 0 where
  pub mode : Mode
  pub cell : List ℕ
  pub row : List (List ℕ)
  pub rows : List (List (List ℕ))

abbrev pub blank : List (List (List ℕ)) → Reader
blank rows = record { mode = Mode.at_start; cell = []; row = []; rows = rows }

-- The cell is over, and with it the row.
abbrev end_cell : Reader → Reader
end_cell s = record s { mode = Mode.at_start; cell = []; row = s.row ++ s.cell ∷ [] }

abbrev end_row : Reader → Reader
end_row s = blank (s.rows ++ (s.row ++ s.cell ∷ []) ∷ [])

abbrev take_in : Mode → ℕ → Reader → Reader
take_in m c s = record s { mode = m; cell = s.cell ++ c ∷ [] }

-- Outside of quotes.
abbrev outside : ℕ → Reader → Reader
outside c s =
    if c == comma then end_cell s else if c == newline then end_row s else take_in Mode.unquoted c s

abbrev pub next : Mode → ℕ → Reader → Reader
next Mode.at_start c s = if c == quote then record s { mode = Mode.quoted } else outside c s
next Mode.unquoted c s = outside c s
next Mode.quoted c s =
    if c == quote then record s { mode = Mode.closing } else take_in Mode.quoted c s
next Mode.closing c s = if c == quote then take_in Mode.quoted c s else outside c s

abbrev pub read : List ℕ → Reader → Reader
read [] s = s
read (c ∷ cs) s = read cs (next s.mode c s)

-- The rows of a text, each of which ends with a newline.
abbrev pub read_csv : List ℕ → List (List (List ℕ))
read_csv text = (read text (blank [])).rows

read-append : (xs ys : List ℕ) (s : Reader) → read (xs ++ ys) s ≡ read ys (read xs s)
read-append [] ys s = refl
read-append (x ∷ xs) ys s = read-append xs ys (next s.mode x s)

-- The reader with this in hand.
abbrev holding : Mode → List ℕ → List (List ℕ) → List (List (List ℕ)) → Reader
holding m cell row rows = record { mode = m; cell = cell; row = row; rows = rows }

more_read :
    (m : Mode) (cell cs : List ℕ) (c : ℕ) (row : List (List ℕ)) (rows : List (List (List ℕ)))
    → holding m ((cell ++ c ∷ []) ++ cs) row rows ≡ holding m (cell ++ c ∷ cs) row rows
more_read m cell cs c row rows = ap (λ xs. holding m xs row rows) (append_assoc cell (c ∷ []) cs)

nothing_read :
    (m : Mode) (cell : List ℕ) (row : List (List ℕ)) (rows : List (List (List ℕ)))
    → holding m cell row rows ≡ holding m (cell ++ []) row rows
nothing_read m cell row rows = ap (λ xs. holding m xs row rows) (sym (append-nil cell))

module _ (extra : ℕ → Bool) where
  not_needed :
      (c : ℕ)
      → needs_quotes extra c ≡ false
      → ((c == comma) ≡ false) × ((c == quote) ≡ false) × ((c == newline) ≡ false)
  unfolding needs_quotes
  not_needed c h = (ground (arith, h), ground (arith, h), ground (arith, h))

  kept_in :
      (c : ℕ) (cell : List ℕ) (row : List (List ℕ)) (rows : List (List (List ℕ)))
      → (c == quote) ≡ false
      → next Mode.quoted c (holding Mode.quoted cell row rows)
        ≡ holding Mode.quoted (cell ++ c ∷ []) row rows
  kept_in c cell row rows n = rw n refl

  quoted-read :
      (cs cell : List ℕ) (row : List (List ℕ)) (rows : List (List (List ℕ)))
      → read (doubled extra cs) (holding Mode.quoted cell row rows)
        ≡ holding Mode.quoted (cell ++ cs) row rows
  unfolding doubled
  quoted-read [] cell row rows = nothing_read Mode.quoted cell row rows
  quoted-read (c ∷ cs) cell row rows = elim (Bool-cases (c == quote)) [
    | inl y ↦
        let e : c ≡ quote = (==_iff c quote).0 y in
        rw e (
          quoted-read cs (cell ++ quote ∷ []) row rows
          ∙ more_read Mode.quoted cell cs quote row rows)
    | inr n ↦ rw n (
        ap (read (doubled extra cs)) (kept_in c cell row rows n)
        ∙ quoted-read cs (cell ++ c ∷ []) row rows
        ∙ more_read Mode.quoted cell cs c row rows)
  ]

  plain-read :
      (cs cell : List ℕ) (row : List (List ℕ)) (rows : List (List (List ℕ)))
      → any_of (needs_quotes extra) cs ≡ false
      → read cs (holding Mode.unquoted cell row rows) ≡ holding Mode.unquoted (cell ++ cs) row rows
  plain-read [] cell row rows h = nothing_read Mode.unquoted cell row rows
  plain-read (c ∷ cs) cell row rows h = elim (Bool-cases (needs_quotes extra c)) [
    | inl y ↦ absurd (cc (rw y at h))
    | inr n ↦
        let (no_comma, no_quote, no_newline) = not_needed c n in
        rw (no_comma, no_newline)
          (plain-read cs (cell ++ c ∷ []) row rows (rw n at h)
            ∙ more_read Mode.unquoted cell cs c row rows)
  ]

  -- A mode behind a cell, from which comma and newline lead on.
  abbrev Over : Mode → Type 0
  Over Mode.quoted = ⊥
  Over m = Unit

  write_cell-read :
      (cs : List ℕ) (row : List (List ℕ)) (rows : List (List (List ℕ)))
      → (m : Mode) × Over m
        × (read (write_cell extra cs) (holding Mode.at_start [] row rows) ≡ holding m cs row rows)
  unfolding write_cell
  write_cell-read cs row rows = elim (Bool-cases (any_of (needs_quotes extra) cs)) [
    | inl y ↦ (
      Mode.closing,
      tt,
      rw y (
          read-append (doubled extra cs) (quote ∷ []) (holding Mode.quoted [] row rows)
          ∙ ap (read (quote ∷ [])) (quoted-read cs [] row rows)),
    )
    | inr n ↦ rw n (plain cs n)
  ]
    where
      plain :
          (xs : List ℕ)
          → any_of (needs_quotes extra) xs ≡ false
          → (m : Mode) × Over m
            × (read xs (holding Mode.at_start [] row rows) ≡ holding m xs row rows)
      plain [] h = (Mode.at_start, tt, refl)
      plain (x ∷ xs) h = elim (Bool-cases (needs_quotes extra x)) [
        | inl y ↦ absurd (cc (rw y at h))
        | inr n ↦
            let (no_comma, no_quote, no_newline) = not_needed x n in
            (
              Mode.unquoted,
              tt,
              rw (no_quote, no_comma, no_newline) (plain-read xs (x ∷ []) row rows (rw n at h)),
            )
      ]

  separated :
      (m : Mode) (cell : List ℕ) (row : List (List ℕ)) (rows : List (List (List ℕ)))
      → Over m
      → (next m comma (holding m cell row rows) ≡ holding Mode.at_start [] (row ++ cell ∷ []) rows)
        × (next m newline (holding m cell row rows) ≡ blank (rows ++ (row ++ cell ∷ []) ∷ []))
  separated Mode.at_start cell row rows h = (refl, refl)
  separated Mode.unquoted cell row rows h = (refl, refl)
  separated Mode.quoted cell row rows h = absurd h
  separated Mode.closing cell row rows h = (refl, refl)

  write_cells-read :
      (cell : List ℕ) (cells row : List (List ℕ)) (rows : List (List (List ℕ)))
      → read (write_cells extra cell cells) (holding Mode.at_start [] row rows)
        ≡ blank (rows ++ (row ++ cell ∷ cells) ∷ [])
  unfolding write_cells
  write_cells-read cell [] row rows =
      let (m, over, q) = write_cell-read cell row rows in
      read-append (write_cell extra cell) (newline ∷ []) (holding Mode.at_start [] row rows)
      ∙ ap (read (newline ∷ [])) q
      ∙ (separated m cell row rows over).1
  write_cells-read cell (after ∷ cells) row rows =
      let (m, over, q) = write_cell-read cell row rows in
      let text = write_cells extra after cells in
      read-append (write_cell extra cell) (comma ∷ text) (holding Mode.at_start [] row rows)
      ∙ ap (read (comma ∷ text)) q
      ∙ ap (read text) (separated m cell row rows over).0
      ∙ write_cells-read after cells (row ++ cell ∷ []) rows
      ∙ ap (λ r. blank (rows ++ r ∷ [])) (append_assoc row (cell ∷ []) (after ∷ cells))

  -- What is written row by row is read as these rows.
  rows-read {ℓ} :
      {A : Type ℓ} (f : A → List (List ℕ)) (xs : List A) (rows : List (List (List ℕ)))
      → ((x : A) (rows : List (List (List ℕ)))
          → read (write_row extra (f x)) (blank rows) ≡ blank (rows ++ f x ∷ []))
      → read (concat_map (λ x. write_row extra (f x)) xs) (blank rows) ≡ blank (rows ++ map f xs)
  rows-read f [] rows h = ap blank (sym (append-nil rows))
  rows-read f (x ∷ xs) rows h =
      let text = concat_map (λ x. write_row extra (f x)) xs in
      read-append (write_row extra (f x)) text (blank rows)
      ∙ ap (read text) (h x rows)
      ∙ rows-read f xs (rows ++ f x ∷ []) h
      ∙ ap blank (append_assoc rows (f x ∷ []) (map f xs))

  module _ {F : Type 0} (rt : Runtime F) where
    build_row-read :
        (r : ExecutionReport F) (e : ErrorBreakdownEntry) (rows : List (List (List ℕ)))
        → read (write_row extra (build_row rt r e)) (blank rows)
          ≡ blank (rows ++ build_row rt r e ∷ [])
    unfolding build_row write_row
    build_row-read r e rows = write_cells-read _ _ [] rows

    header-read : read (write_row extra csv_header) (blank []) ≡ blank (csv_header ∷ [])
    unfolding csv_header write_row
    header-read = write_cells-read _ _ [] []

    -- The exported text is read back as the header and one row for each entry of the error breakdown,
    -- in order, whatever commas, quotes and line ends stand in the cells.
    pub execution_report_to_csv-read :
        (r : ExecutionReport F)
        → read_csv (execution_report_to_csv extra rt r)
          ≡ csv_header ∷ map (build_row rt r) r.error_breakdown
    unfolding execution_report_to_csv
    execution_report_to_csv-read r =
        let text = concat_map (λ e. write_row extra (build_row rt r e)) r.error_breakdown in
        ap (λ (s : Reader). s.rows)
          (read-append (write_row extra csv_header) text (blank [])
            ∙ ap (read text) header-read
            ∙ rows-read (build_row rt r) r.error_breakdown (csv_header ∷ []) (build_row-read r))
