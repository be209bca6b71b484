-- ===== src/Examples/Exports.antt =====
-- The export of a report at a concrete input.
use enterprise_vault_migrati.Prelude.{
  ℕ, pos, zero, suc, ◌==◌, String, ◌≡◌, refl, ap, Bool, true, false, none, some, [], ◌∷◌, All,
  codes, is_space, lstrip,
}
use enterprise_vault_migrati.Contracts.{
  ExecutionReport, ErrorBreakdownEntry, report_defaults, metrics_defaults,
}
use enterprise_vault_migrati.Reporting.Csv.{
  starts_dangerously, is_dangerous, csv_header, build_row, execution_report_to_csv,
}
use enterprise_vault_migrati.Reporting.Reading.{read_csv, execution_report_to_csv-read}
use enterprise_vault_migrati.Reporting.Formatter.{execution_report_to_dict}
use enterprise_vault_migrati.Reporting.Recovery.{
  exported, read_report, execution_report_to_dict-read,
}
use enterprise_vault_migrati.Reporting.Cells.{IsSafe, execution_report_to_csv-IsSafe}
use enterprise_vault_migrati.Runtime.{Runtime}
use enterprise_vault_migrati.Examples.Data.{nat_runtime, configuration}

-- An entry whose message has a comma and quotes, and begins like a formula.
abbrev entry : ErrorBreakdownEntry
entry = record {
  source_identifier = some "a";
  stage = "upload";
  category = "target";
  code = "FAILED";
  message = "=SUM(1,\"2\")";
  retryable = true;
  attempt_count = pos 1;
  final_status = "failed";
  archive_identifier = none;
  item_type = none;
}

abbrev report : ExecutionReport ℕ
report = record (report_defaults 1 1 0 5 false none (configuration false)) {
  error_breakdown = entry ∷ [];
}

-- A version of the writer that also quotes a carriage return.
abbrev carriage_return : ℕ → Bool
carriage_return c = c == 13

execution_report_to_csv-read_example :
    read_csv (execution_report_to_csv carriage_return nat_runtime report)
    ≡ csv_header ∷ build_row nat_runtime report entry ∷ []
execution_report_to_csv-read_example =
    execution_report_to_csv-read carriage_return nat_runtime report

decimals-IsSafe : (n : ℕ) → IsSafe (codes (nat_runtime.decimal n))
unfolding starts_dangerously is_dangerous lstrip is_space
decimals-IsSafe n = refl

execution_report_to_csv-IsSafe_example :
    All
      (λ row. All IsSafe row)
      (read_csv (execution_report_to_csv carriage_return nat_runtime report))
execution_report_to_csv-IsSafe_example =
    execution_report_to_csv-IsSafe nat_runtime decimals-IsSafe carriage_return report
      ((1, refl), tt)

-- A time as that many strokes, and how it is read.
abbrev strokes : ℕ → String
strokes zero = String.[]
strokes (suc n) = String.◌∷◌ "|" (strokes n)

abbrev count_strokes : String → ℕ
count_strokes String.[] = 0
count_strokes (String.◌∷◌ c s) = suc (count_strokes s)

count_strokes-strokes : (n : ℕ) → count_strokes (strokes n) ≡ n
count_strokes-strokes zero = refl
count_strokes-strokes (suc n) = ap suc (count_strokes-strokes n)

abbrev stroke_runtime : Runtime ℕ
stroke_runtime = record nat_runtime { isoformat = strokes }

abbrev measured_report : ExecutionReport ℕ
measured_report = record report {
  metrics = some (metrics_defaults stroke_runtime 5 1 10 10 none (some 2));
  started_at = some 3;
  warnings = "slow" ∷ [];
}

execution_report_to_dict-read_example :
    read_report stroke_runtime
      (λ s. some (count_strokes s))
      (execution_report_to_dict stroke_runtime measured_report)
    ≡ some (exported stroke_runtime measured_report)
execution_report_to_dict-read_example =
    execution_report_to_dict-read stroke_runtime (λ s. some (count_strokes s))
      (λ t. ap some (count_strokes-strokes t)) measured_report
