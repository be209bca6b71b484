-- ===== src/Finalize/Metrics.antt =====
-- `_resolve_metrics` of src/migration_engine/steps/finalize_migration_step.py.
use enterprise_vault_migrati.Prelude.{
  ℕ, ◌/◌, Option, none, some, length, if◌then◌else◌, ltb, or_else,
}
use enterprise_vault_migrati.Runtime.{Runtime, elapsed, items_per_second}
use enterprise_vault_migrati.Contracts.{Metrics, metrics_defaults, ReconciliationResult}
use enterprise_vault_migrati.Contracts.Documents.{VerificationResult}
use enterprise_vault_migrati.Context.{StepContext}
use enterprise_vault_migrati.Finalize.Counts.{
  from, resolve_total_items, resolve_successful_items, resolve_failed_items, resolve_skipped_items,
  resolve_processed_bytes,
}
use enterprise_vault_migrati.Finalize.Reconciliation.{is_dry_run_mode}

module _ {F : Type 0} (rt : Runtime F) where
  -- both returns: the known metrics, or fresh ones, with the run's values
  unfoldable pub resolve_metrics :
      Option (Metrics F) → StepContext F → ReconciliationResult → ℕ → ℕ → Metrics F
  resolve_metrics known c r started finished =
      let dry = is_dry_run_mode c.execution_context.configuration c.upload_result in
      let total = resolve_total_items c in
      let bytes = resolve_processed_bytes c in
      let duration = elapsed rt started finished in
      let base : Metrics F =
        or_else known (metrics_defaults rt duration rt.zero_float 0 0 none none) in
      record base {
        duration_seconds = duration;
        throughput_items_per_second = items_per_second rt total duration;
        average_item_size = (if ltb 0 total then bytes / total else 0);
        processed_bytes = bytes;
        total_items = total;
        processed_items = total;
        successful_items = (if dry then 0 else resolve_successful_items c);
        failed_items = (if dry then 0 else resolve_failed_items c);
        skipped_items = resolve_skipped_items c;
        retried_items = 0;
        idempotent_replays = r.idempotent_replays;
        reconciled_items = (if dry then r.dry_run_items else r.verified_items);
        missing_items = length r.missing_items;
        checksum_mismatches = length r.checksum_mismatches;
        uploaded_items = (if dry then 0 else r.uploaded_items);
        verification_failures =
            (if dry
              then 0
              else from 0 (λ (v : VerificationResult). v.failed_count) c.verification_result);
        dry_run_items = r.dry_run_items;
        total_bytes = bytes;
        started_at = some started;
        finished_at = some finished;
      }
