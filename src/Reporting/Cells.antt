-- ===== src/Reporting/Cells.antt =====
-- That no exported cell begins like a formula.
use enterprise_vault_migrati.Prelude.{
  String, Option, none, some, All-append, Option-cases, ℕ, pos, ◌==◌, any_of, arith, ◌∙◌, ◌≡◌, refl,
  sym, subst, Bool, true, false, List, [], ◌∷◌, map, All, codes, is_space, lstrip, Bool-cases, inl,
  inr,
}
use enterprise_vault_migrati.Runtime.{Runtime}
use enterprise_vault_migrati.Contracts.{ExecutionReport, ErrorBreakdownEntry}
use enterprise_vault_migrati.Dict.{Dict}
use enterprise_vault_migrati.Contracts.Documents.{TransformedDocument}
use enterprise_vault_migrati.Context.{StepContext}
use enterprise_vault_migrati.Reporting.Breakdown.{
  Reasons, entry, verification_entry, failure_reasons, transformed_document_map, with_fallback,
  build_transformation_entries, build_upload_entries, build_verification_entries,
  build_pipeline_entry, build_error_breakdown_entries,
}
use enterprise_vault_migrati.Reporting.Csv.{
  integer_text, is_dangerous, starts_dangerously, sanitize_cell, boolean_text, csv_header,
  build_row, execution_report_to_csv,
}
use enterprise_vault_migrati.Reporting.Reading.{read_csv, execution_report_to_csv-read}

-- The characters that make a spreadsheet take a cell for a formula: =, +, - and @.
abbrev formula_starts : List ℕ
formula_starts = 61 ∷ 43 ∷ 45 ∷ 64 ∷ []

abbrev opens_formula : List ℕ → Bool
opens_formula [] = false
opens_formula (c ∷ cs) = any_of (λ d. c == d) formula_starts

All-map :
    {A B : Type 0} (P : B → Type 0) (f : A → B) (xs : List A)
    → ((x : A) → P (f x))
    → All P (map f xs)
All-map P f [] h = tt
All-map P f (x ∷ xs) h = (h x, All-map P f xs h)

-- Behind its leading space the cell begins with none of these characters.
abbrev pub IsSafe : List ℕ → Type 0
IsSafe cell = opens_formula (lstrip is_space cell) ≡ false

-- The attempt count of the entry is not negative.
abbrev pub IsCounted : ErrorBreakdownEntry → Type 0
IsCounted e = (n : ℕ) × (e.attempt_count ≡ pos n)

-- The exporter's own test finds all these characters.
starts_dangerously_lem : (value : List ℕ) → starts_dangerously value ≡ opens_formula value
unfolding starts_dangerously is_dangerous
starts_dangerously_lem [] = refl
starts_dangerously_lem (c ∷ cs) = ground arith

sanitize_cell-IsSafe : (value : List ℕ) → IsSafe (sanitize_cell value)
unfolding sanitize_cell lstrip is_space
sanitize_cell-IsSafe value =
    let found = starts_dangerously_lem (lstrip is_space value) in
    elim (Bool-cases (starts_dangerously (lstrip is_space value))) [
      | inl y ↦ rw y refl
      | inr n ↦ rw n (sym found ∙ n)
    ]

boolean_text-IsSafe : (b : Bool) → IsSafe (boolean_text b)
unfolding boolean_text lstrip is_space
boolean_text-IsSafe true = refl
boolean_text-IsSafe false = refl

csv_header-IsSafe : All IsSafe csv_header
unfolding csv_header lstrip is_space
csv_header-IsSafe = search

module _ {F : Type 0} (rt : Runtime F) (decimals : (n : ℕ) → IsSafe (codes (rt.decimal n))) where
  integer_text-IsSafe :
      (e : ErrorBreakdownEntry) → IsCounted e → IsSafe (integer_text rt e.attempt_count)
  unfolding integer_text
  integer_text-IsSafe e (n, p) = rw p (decimals n)

  build_row-IsSafe :
      (r : ExecutionReport F) (e : ErrorBreakdownEntry)
      → IsCounted e
      → All IsSafe (build_row rt r e)
  unfolding build_row
  build_row-IsSafe r e counted =
      search (sanitize_cell-IsSafe, boolean_text-IsSafe, integer_text-IsSafe e counted)

  rows-IsSafe :
      (r : ExecutionReport F) (es : List ErrorBreakdownEntry)
      → All IsCounted es
      → All (λ row. All IsSafe row) (map (build_row rt r) es)
  rows-IsSafe r [] h = tt
  rows-IsSafe r (e ∷ es) h = (build_row-IsSafe r e h.0, rows-IsSafe r es h.1)

  -- Where decimal numerals begin with none of =, +, - and @, and no attempt count is negative, no
  -- cell that is read from the exported text begins with one of them, behind whatever space.
  pub execution_report_to_csv-IsSafe :
      (extra : ℕ → Bool) (r : ExecutionReport F)
      → All IsCounted r.error_breakdown
      → All (λ row. All IsSafe row) (read_csv (execution_report_to_csv extra rt r))
  execution_report_to_csv-IsSafe extra r h =
      subst (λ rows. All (λ row. All IsSafe row) rows)
        (sym (execution_report_to_csv-read extra rt r))
        (csv_header-IsSafe, rows-IsSafe r r.error_breakdown h)

verification_entry-IsCounted :
    (documents : Dict TransformedDocument) (final_status : String) (x : String × Reasons)
    → IsCounted (verification_entry documents final_status x)
unfolding verification_entry entry
verification_entry-IsCounted documents final_status (k, reasons) = (1, refl)

-- The entries that the engine builds count attempts in natural numbers.
module _ {F : Type 0} (c : StepContext F) (final_status : String) where
  with_fallback-IsCounted :
      (step : Option String) (retryable : Bool) (n : ℕ) (message : Option String)
      (es : List ErrorBreakdownEntry)
      → All IsCounted es
      → All IsCounted (with_fallback c final_status step retryable n message es)
  unfolding with_fallback build_pipeline_entry
  with_fallback-IsCounted (some step) retryable n message [] h = ((n, refl), tt)
  with_fallback-IsCounted none retryable n message [] h = h
  with_fallback-IsCounted none retryable n message (e ∷ es) h = h
  with_fallback-IsCounted (some step) retryable n message (e ∷ es) h = h

  build_error_breakdown_entries-IsCounted :
      (step : Option String) (retryable : Bool) (n : ℕ) (message : Option String)
      → All IsCounted (build_error_breakdown_entries c final_status step retryable n message)
  unfolding build_error_breakdown_entries build_transformation_entries build_upload_entries
      build_verification_entries entry
  build_error_breakdown_entries-IsCounted step retryable n message =
      with_fallback-IsCounted step retryable n message _ (
        All-append IsCounted _ _
          (All-append IsCounted (build_transformation_entries c final_status)
            (build_upload_entries c final_status) transformation upload)
          verification)
    where
      transformation : All IsCounted (build_transformation_entries c final_status)
      transformation = elim (Option-cases c.transformation_result) [
        | inl e ↦ rw (build_transformation_entries, e) tt
        | inr (t, e) ↦
            rw (build_transformation_entries, e)
              (All-map _ _ t.failed_item_identifiers (λ k. (1, refl)))
      ]

      upload : All IsCounted (build_upload_entries c final_status)
      upload = elim (Option-cases c.upload_result) [
        | inl e ↦ rw (build_upload_entries, e) tt
        | inr (u, e) ↦
            rw (build_upload_entries, e) (All-map _ _ u.failed_documents (λ d. (1, refl)))
      ]

      verification : All IsCounted (build_verification_entries c final_status)
      verification = elim (Option-cases c.verification_result) [
        | inl e ↦ rw (build_verification_entries, e) tt
        | inr (v, e) ↦
            rw (build_verification_entries, e)
              (All-map _ _ (failure_reasons v) (
                verification_entry-IsCounted (transformed_document_map c.transformation_result)
                  final_status))
      ]
