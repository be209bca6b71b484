-- ===== src/Verify/Metrics.antt =====
-- `_resolve_metrics` of src/migration_engine/steps/verify_items_step.py.
use enterprise_vault_migrati.Prelude.{
  ℕ, ◌/◌, Bool, Option, none, some, if◌then◌else◌, ltb, length, count_if, sum_by,
}
use enterprise_vault_migrati.Runtime.{Runtime, elapsed, items_per_second}
use enterprise_vault_migrati.Contracts.{Metrics, metrics_defaults}
use enterprise_vault_migrati.Contracts.Documents.{
  TransformedDocument, UploadResult, UploadBatchResult, VerificationResult,
}

unfoldable pub processed_count : Bool → UploadBatchResult → ℕ
processed_count dry u = if dry then length u.item_results else length u.uploaded_documents

unfoldable pub processed_bytes : Bool → UploadBatchResult → ℕ
processed_bytes dry u =
    if dry
    then sum_by (λ (d : TransformedDocument). d.size_bytes) u.skipped_documents
    else sum_by (λ (d : TransformedDocument). d.size_bytes) u.uploaded_documents

module _ {F : Type 0} (rt : Runtime F) where
  -- the fields that all three returns give
  with_common : ℕ → ℕ → ℕ → ℕ → Metrics F → Metrics F
  with_common processed bytes started finished m =
      let duration = elapsed rt started finished in
      record m {
        duration_seconds = duration;
        throughput_items_per_second = items_per_second rt processed duration;
        average_item_size = (if ltb 0 processed then bytes / processed else 0);
        processed_bytes = bytes;
        total_items = processed;
        processed_items = processed;
        started_at = some started;
        finished_at = some finished;
        total_bytes = bytes;
      }

  -- the fields that tell a dry run from another one, by the known metrics
  by_mode : Option (Metrics F) → Bool → UploadBatchResult → VerificationResult → Metrics F
  by_mode (some m) dry u v =
      if dry then record m { uploaded_items = 0; verification_failures = 0 } else record m {
        successful_items = v.verified_count;
        failed_items = v.failed_count;
        skipped_items = 0;
        retried_items = 0;
        uploaded_items = processed_count dry u;
        verification_failures = v.failed_count;
      }
  by_mode none dry u v = record (metrics_defaults rt rt.zero_float rt.zero_float 0 0 none none) {
    successful_items = (if dry then 0 else v.verified_count);
    failed_items = (if dry then 0 else v.failed_count);
    skipped_items = (if dry then length u.skipped_documents else 0);
    uploaded_items = (if dry then 0 else processed_count dry u);
    verification_failures = (if dry then 0 else v.failed_count);
    dry_run_items = count_if (λ (r : UploadResult). r.dry_run) u.item_results;
  }

  unfoldable pub resolve_metrics :
      Option (Metrics F) → UploadBatchResult → VerificationResult → ℕ → ℕ → Bool → Metrics F
  unfolding processed_count processed_bytes with_common by_mode
  resolve_metrics known u v started finished dry =
      with_common (processed_count dry u) (processed_bytes dry u) started finished
        (by_mode known dry u v)
