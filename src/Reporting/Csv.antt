-- ===== src/Reporting/Csv.antt =====
-- src/migration_engine/reporting/csv_report_exporter.py, over texts as lists of code points, with the
-- writer of Python's csv module as the exporter sets it up: comma, double quote, "\n" at the end of a
-- row, and quotes only around cells that need them. Which further characters need them depends on
-- the version of Python; they are the argument `extra`.
use enterprise_vault_migrati.Prelude.{
  ℕ, suc, ℤ, pos, negsuc, ◌==◌, String, Bool, true, false, Option, none, some, List, [], ◌∷◌, ◌++◌,
  ◌||◌, map, if◌then◌else◌, any_of, or_text, codes, is_space, lstrip, concat_map,
}
use enterprise_vault_migrati.Runtime.{Runtime}
use enterprise_vault_migrati.Contracts.{ExecutionReport, ErrorBreakdownEntry}
use enterprise_vault_migrati.Reporting.Summary.{resolve_final_status}

abbrev pub comma : ℕ
comma = b','

abbrev pub quote : ℕ
quote = b'"'

abbrev pub newline : ℕ
newline = 10

-- _DANGEROUS_CSV_PREFIXES
unfoldable pub is_dangerous : ℕ → Bool
is_dangerous c = (c == b'=') || (c == b'+') || (c == b'-') || (c == b'@')

-- `stripped_value and stripped_value[0] in …`
unfoldable pub starts_dangerously : List ℕ → Bool
unfolding is_dangerous
starts_dangerously [] = false
starts_dangerously (c ∷ cs) = is_dangerous c

-- _sanitize_cell
unfoldable pub sanitize_cell : List ℕ → List ℕ
unfolding starts_dangerously lstrip is_space
sanitize_cell value = if starts_dangerously (lstrip is_space value) then b'\'' ∷ value else value

-- _boolean_text, of a Boolean
unfoldable pub boolean_text : Bool → List ℕ
boolean_text true = codes "true"
boolean_text false = codes "false"

-- _CSV_HEADER
unfoldable pub csv_header : List (List ℕ)
csv_header = map codes (
    "export_schema_version" ∷ "job_id" ∷ "final_status" ∷ "completed" ∷ "resumed"
    ∷ "checkpoint_sequence" ∷ "stage" ∷ "category" ∷ "code" ∷ "source_identifier"
    ∷ "archive_identifier" ∷ "item_type" ∷ "retryable" ∷ "attempt_count" ∷ "message" ∷ [])

module _ {F : Type 0} (rt : Runtime F) where
  -- `"" if … is None else str(…)`
  sequence_text : Option ℕ → String
  sequence_text none = ""
  sequence_text (some n) = rt.decimal n

  -- str(n)
  unfoldable pub integer_text : ℤ → List ℕ
  integer_text (pos n) = codes (rt.decimal n)
  integer_text (negsuc n) = b'-' ∷ codes (rt.decimal (suc n))

  -- _build_row
  unfoldable pub build_row : ExecutionReport F → ErrorBreakdownEntry → List (List ℕ)
  unfolding sanitize_cell boolean_text sequence_text integer_text
  build_row r e =
      sanitize_cell (codes r.export_schema_version)
      ∷ sanitize_cell (codes (or_text r.job_id ""))
      ∷ sanitize_cell (codes (resolve_final_status r))
      ∷ boolean_text r.completed
      ∷ boolean_text r.resumed
      ∷ sanitize_cell (codes (sequence_text r.checkpoint_sequence))
      ∷ sanitize_cell (codes e.stage)
      ∷ sanitize_cell (codes e.category)
      ∷ sanitize_cell (codes e.code)
      ∷ sanitize_cell (codes (or_text e.source_identifier ""))
      ∷ sanitize_cell (codes (or_text e.archive_identifier ""))
      ∷ sanitize_cell (codes (or_text e.item_type ""))
      ∷ boolean_text e.retryable
      ∷ integer_text e.attempt_count
      ∷ sanitize_cell (codes e.message)
      ∷ []

-- csv.writer
module _ (extra : ℕ → Bool) where
  unfoldable pub needs_quotes : ℕ → Bool
  needs_quotes c = (c == comma) || (c == quote) || (c == newline) || extra c

  -- a quote inside quotes is written twice
  unfoldable pub doubled : List ℕ → List ℕ
  doubled [] = []
  doubled (c ∷ cs) = let rest = doubled cs in if c == quote then quote ∷ quote ∷ rest else c ∷ rest

  unfoldable pub write_cell : List ℕ → List ℕ
  unfolding needs_quotes doubled
  write_cell cs = if any_of needs_quotes cs then quote ∷ (doubled cs ++ quote ∷ []) else cs

  unfoldable pub write_cells : List ℕ → List (List ℕ) → List ℕ
  unfolding write_cell
  write_cells cell [] = write_cell cell ++ newline ∷ []
  write_cells cell (next ∷ cells) = write_cell cell ++ comma ∷ write_cells next cells

  -- writerow, for a row that has a cell and is not one empty cell
  unfoldable pub write_row : List (List ℕ) → List ℕ
  unfolding write_cells
  write_row [] = newline ∷ []
  write_row (cell ∷ cells) = write_cells cell cells

  -- execution_report_to_csv
  unfoldable pub execution_report_to_csv : {F : Type 0} → Runtime F → ExecutionReport F → List ℕ
  unfolding write_row csv_header build_row
  execution_report_to_csv rt r =
      write_row csv_header ++ concat_map (λ e. write_row (build_row rt r e)) r.error_breakdown
