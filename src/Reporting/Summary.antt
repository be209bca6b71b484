-- ===== src/Reporting/Summary.antt =====
-- src/migration_engine/reporting/report_summary.py.
use Prim.Native.String.{◌++◌ as ◌+s◌}
use enterprise_vault_migrati.Prelude.{
  ℕ, ◌==◌, String, Bool, false, Option, none, some, List, [], ◌∷◌, ◌&&◌, ◌||◌, not, if◌then◌else◌,
  str_eq, or_text, length, is_empty, is_some, ltb,
}
use enterprise_vault_migrati.Runtime.{Runtime}
use enterprise_vault_migrati.Contracts.{Metrics, ReconciliationResult, ExecutionReport}

-- the four FINAL_STATUS constants
abbrev pub final_status_completed : String
final_status_completed = "completed"

abbrev pub final_status_completed_with_warnings : String
final_status_completed_with_warnings = "completed_with_warnings"

abbrev pub final_status_failed : String
final_status_failed = "failed"

abbrev pub final_status_dry_run_completed : String
final_status_dry_run_completed = "dry_run_completed"

-- `sep.join(texts)`
abbrev pub join : String → List String → String
join sep [] = ""
join sep (x ∷ []) = x
join sep (x ∷ y ∷ ys) = x +s sep +s join sep (y ∷ ys)

-- `report.reconciliation is not None and not report.reconciliation.is_reconciled`
unfoldable pub is_unreconciled : Option ReconciliationResult → Bool
is_unreconciled none = false
is_unreconciled (some r) = not r.is_reconciled

module _ {F : Type 0} where
  -- `0 if owner is None else …` on the metrics and on the reconciliation
  metric : (Metrics F → ℕ) → ExecutionReport F → ℕ
  metric field r = elim r.metrics [ none ↦ 0 | some m ↦ field m ]

  reconciled_count : (ReconciliationResult → ℕ) → ExecutionReport F → ℕ
  reconciled_count field r = elim r.reconciliation [ none ↦ 0 | some x ↦ field x ]

  -- _is_dry_run_completed
  unfoldable pub is_dry_run_completed : ExecutionReport F → Bool
  is_dry_run_completed r = elim r.metrics [
    | none ↦ false
    | some m ↦ ltb 0 m.dry_run_items && (m.uploaded_items == 0) && is_some r.reconciliation
  ]

  -- _has_warnings
  unfoldable pub has_warnings : ExecutionReport F → Bool
  has_warnings r = elim r.metrics [
    | none ↦ not (is_empty r.warnings)
    | some m ↦
        not (is_empty r.warnings)
        || ltb 0 m.retried_items
        || ltb 0 m.failed_items
        || ltb 0 m.verification_failures
        || ltb 0 m.dry_run_items
  ]

  -- the status of a report that has none
  unfoldable pub fresh_status : ExecutionReport F → String
  unfolding is_unreconciled is_dry_run_completed has_warnings
  fresh_status r =
      if not r.completed || ltb 0 r.failed_steps
      then final_status_failed
      else if is_unreconciled r.reconciliation
      then final_status_failed
      else if is_dry_run_completed r
      then final_status_dry_run_completed
      else if has_warnings r
      then final_status_completed_with_warnings
      else final_status_completed

  -- resolve_final_status
  unfoldable pub resolve_final_status : ExecutionReport F → String
  unfolding fresh_status
  resolve_final_status r = elim r.final_status [ some s ↦ s | none ↦ fresh_status r ]

  -- _is_reconciled
  unfoldable pub is_reconciled : ExecutionReport F → Bool
  is_reconciled r = elim r.reconciliation [ none ↦ false | some x ↦ x.is_reconciled ]

-- _status_sentence
unfoldable pub status_sentence : String → String
status_sentence s =
    if str_eq s final_status_completed
    then "Migration completed successfully."
    else if str_eq s final_status_completed_with_warnings
    then "Migration completed with warnings."
    else if str_eq s final_status_dry_run_completed
    then "Dry-run migration completed successfully without target mutation."
    else "Migration failed."

-- _format_scope
unfoldable pub format_scope : Option (List String) → String
format_scope none = "all"
format_scope (some []) = "explicitly empty"
format_scope (some (x ∷ xs)) = join ", " (x ∷ xs)

abbrev yes_no : Bool → String
yes_no b = if b then "yes" else "no"

module _ {F : Type 0} (rt : Runtime F) where
  -- _format_datetime
  unfoldable pub format_datetime : Option ℕ → String
  format_datetime none = "n/a"
  format_datetime (some t) = rt.isoformat t

  -- _format_number
  unfoldable pub format_number : F → String
  format_number x = or_text (some (rt.strip_zeros (rt.fixed_6 x))) "0"

  -- the line on the checkpoint
  unfoldable pub checkpoint_line : Option String → Option ℕ → String
  checkpoint_line (some id) _ = "Checkpoint ID: " +s id
  checkpoint_line none (some n) = "Checkpoint sequence: " +s rt.decimal n
  checkpoint_line none none = "Checkpoint sequence: n/a"

  -- build_execution_report_summary
  unfoldable pub build_execution_report_summary : ExecutionReport F → Option String → String
  unfolding resolve_final_status status_sentence format_scope format_datetime format_number
      checkpoint_line is_reconciled metric reconciled_count
  build_execution_report_summary r checkpoint_identifier =
      let final_status = resolve_final_status r in
      let count : String → ℕ → String = λ label n. label +s rt.decimal n in
      join "\n" (
        status_sentence final_status
        ∷ ("Migration job ID: " +s or_text r.job_id "unknown")
        ∷ ("Final status: " +s final_status)
        ∷ ("Resumed: " +s yes_no r.resumed)
        ∷ checkpoint_line checkpoint_identifier r.checkpoint_sequence
        ∷ ("Started at: " +s format_datetime r.started_at)
        ∷ ("Completed at: " +s format_datetime r.completed_at)
        ∷ ("Duration seconds: " +s format_number r.duration_seconds)
        ∷ count "Archives discovered: " r.discovered_archives
        ∷ count "Items extracted: " r.extracted_items
        ∷ count "Items transformed: " r.transformed_items
        ∷ count "Items uploaded: " (metric (λ m. m.uploaded_items) r)
        ∷ count "Idempotent replays: " (metric (λ m. m.idempotent_replays) r)
        ∷ count "Items verified: " (reconciled_count (λ x. x.verified_items) r)
        ∷ count "Retries: " (metric (λ m. m.retried_items) r)
        ∷ count "Failed items: " (metric (λ m. m.failed_items) r)
        ∷ count "Dry-run items: " (metric (λ m. m.dry_run_items) r)
        ∷ count "Missing items: " (reconciled_count (λ x. length x.missing_items) r)
        ∷ count "Checksum mismatches: " (reconciled_count (λ x. length x.checksum_mismatches) r)
        ∷ ("Reconciliation status: " +s elim r.reconciliation [ none ↦ "n/a" | some x ↦ x.status ])
        ∷ ("Reconciled: " +s yes_no (is_reconciled r))
        ∷ count "Warnings: " (length r.warnings)
        ∷ ("Archive filters: " +s format_scope r.archive_names)
        ∷ ("Folder filters: " +s format_scope r.folder_paths)
        ∷ ("Start date filter: " +s format_datetime r.start_date)
        ∷ ("End date filter: " +s format_datetime r.end_date)
        ∷ [])
