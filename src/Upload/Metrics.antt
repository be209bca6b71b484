-- ===== src/Upload/Metrics.antt =====
-- `_resolve_metrics` of src/migration_engine/steps/upload_items_step.py.
use enterprise_vault_migrati.Prelude.{
  ℕ, ◌-◌, ◌/◌, Option, none, some, ◌&&◌, ◌++◌, if◌then◌else◌, ltb, length, count_if, sum_by, min,
}
use enterprise_vault_migrati.Runtime.{Runtime, elapsed, items_per_second}
use enterprise_vault_migrati.Contracts.{Configuration, Metrics, metrics_defaults}
use enterprise_vault_migrati.Contracts.Documents.{UploadBatchResult}

unfoldable pub dry_run_count : UploadBatchResult → ℕ
dry_run_count u = count_if (λ r. r.dry_run) u.item_results

unfoldable pub replay_count : UploadBatchResult → ℕ
replay_count u = count_if (λ r. r.success && r.idempotent_replay) u.item_results

-- the bytes of all documents of the batch
unfoldable pub batch_bytes : UploadBatchResult → ℕ
batch_bytes u =
    sum_by (λ d. d.size_bytes) (u.uploaded_documents ++ (u.failed_documents ++ u.skipped_documents))

module _ {F : Type 0} (rt : Runtime F) where
  -- both returns of `_resolve_metrics`: the known metrics, or fresh ones, with the batch's values
  unfoldable pub resolve_metrics :
      Option (Metrics F) → UploadBatchResult → Configuration F → ℕ → ℕ → Metrics F
  unfolding dry_run_count replay_count batch_bytes
  resolve_metrics known u c started_at completed_at =
      let duration = elapsed rt started_at completed_at in
      let processed = length u.item_results in
      let is_dry = ltb 0 (dry_run_count u) in
      let uploaded = length u.uploaded_documents in
      let replays : ℕ = if is_dry then 0 else replay_count u in
      let bytes = batch_bytes u in
      let throughput = items_per_second rt processed duration in
      let average : ℕ = if ltb 0 processed then bytes / processed else 0 in
      let base : Metrics F = elim known [
        | none ↦ metrics_defaults rt duration throughput average bytes none none
        | some m ↦ m
      ] in
      record base {
        duration_seconds = duration;
        throughput_items_per_second = throughput;
        average_item_size = average;
        processed_bytes = bytes;
        total_items = processed;
        processed_items = processed;
        successful_items = (if is_dry then 0 else uploaded);
        failed_items = length u.failed_documents;
        skipped_items = length u.skipped_documents;
        retried_items = 0;
        idempotent_replays = replays;
        dry_run_items = dry_run_count u;
        worker_utilization =
            (if ltb 0 processed
              then rt.quotient (min processed c.upload_worker_count) c.upload_worker_count
              else rt.zero_float);
        uploaded_items = (if is_dry then 0 else uploaded - replays);
        verification_failures = 0;
        total_bytes = bytes;
        started_at = some started_at;
        finished_at = some completed_at;
      }
