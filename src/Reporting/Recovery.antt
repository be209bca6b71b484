-- ===== src/Reporting/Recovery.antt =====
-- A reader of the whole dictionary of report_formatter.py, and what of a report it gets back.
use enterprise_vault_migrati.Prelude.{ℕ, ◌≡◌, refl, String, Option, none, some}
use mathlib.Core.Option
use enterprise_vault_migrati.Runtime.{Runtime}
use enterprise_vault_migrati.Contracts.{Metrics, ExecutionReport}
use enterprise_vault_migrati.Reporting.Json.{
  Json, ◌>>=◌, field, as_boolean, as_natural, as_number, as_text, as_list, optional,
  read_elements-array_of,
}
use enterprise_vault_migrati.Reporting.Summary.{resolve_final_status}
use enterprise_vault_migrati.Reporting.Formatter.{
  serialize_error_breakdown_entry, serialize_datetime, serialize_metrics, format_execution_report,
  execution_report_to_dict,
}
use enterprise_vault_migrati.Reporting.Import.{
  read_texts, read_reconciliation, read_error_breakdown_entry, optional_text-read,
  optional_integer-read, optional_number-read, text_list-read, serialize_tuple-read,
  serialize_reconciliation-read, serialize_error_breakdown_entry-read,
}

module _ {F : Type 0} (rt : Runtime F) where
  -- The metrics without the four fields that are not exported.
  abbrev pub exported_metrics : Metrics F → Metrics F
  exported_metrics m = record m {
    throttled_uploads = 0;
    retry_after_count = 0;
    temporary_failures = 0;
    worker_utilization = rt.zero_float;
  }

  -- The report without the numbers of steps, which are not exported, and with the status and the
  -- summary that it stands for.
  abbrev pub exported : ExecutionReport F → ExecutionReport F
  exported r = record r {
    successful_steps = 0;
    failed_steps = 0;
    skipped_steps = 0;
    final_status = some (resolve_final_status r);
    summary = some (format_execution_report rt r);
    metrics = Option.map exported_metrics r.metrics;
  }

-- `parse` reads a time, as datetime.fromisoformat does.
module _ {F : Type 0} (rt : Runtime F) (parse : String → Option ℕ) where
  abbrev as_datetime : Json F → Option ℕ
  as_datetime v = as_text v >>= parse

  read_metrics : Json F → Option (Metrics F)
  read_metrics v = do
    duration_seconds ← field "duration_seconds" v >>= as_number
    throughput_items_per_second ← field "throughput_items_per_second" v >>= as_number
    average_item_size ← field "average_item_size" v >>= as_natural
    processed_bytes ← field "processed_bytes" v >>= as_natural
    estimated_remaining_seconds ← field "estimated_remaining_seconds" v >>= optional as_number
    peak_memory_usage_mb ← field "peak_memory_usage_mb" v >>= optional as_number
    total_items ← field "total_items" v >>= as_natural
    processed_items ← field "processed_items" v >>= as_natural
    successful_items ← field "successful_items" v >>= as_natural
    failed_items ← field "failed_items" v >>= as_natural
    skipped_items ← field "skipped_items" v >>= as_natural
    filtered_archives ← field "filtered_archives" v >>= as_natural
    filtered_items ← field "filtered_items" v >>= as_natural
    retried_items ← field "retried_items" v >>= as_natural
    idempotent_replays ← field "idempotent_replays" v >>= as_natural
    dry_run_items ← field "dry_run_items" v >>= as_natural
    rehydrated_items ← field "rehydrated_items" v >>= as_natural
    rehydration_failures ← field "rehydration_failures" v >>= as_natural
    rehydrated_bytes ← field "rehydrated_bytes" v >>= as_natural
    sis_cache_hits ← field "sis_cache_hits" v >>= as_natural
    sis_cache_misses ← field "sis_cache_misses" v >>= as_natural
    reconciled_items ← field "reconciled_items" v >>= as_natural
    missing_items ← field "missing_items" v >>= as_natural
    checksum_mismatches ← field "checksum_mismatches" v >>= as_natural
    uploaded_items ← field "uploaded_items" v >>= as_natural
    verification_failures ← field "verification_failures" v >>= as_natural
    total_bytes ← field "total_bytes" v >>= as_natural
    started_at ← field "started_at" v >>= optional as_datetime
    finished_at ← field "finished_at" v >>= optional as_datetime
    some (record {
      duration_seconds = duration_seconds;
      throughput_items_per_second = throughput_items_per_second;
      average_item_size = average_item_size;
      processed_bytes = processed_bytes;
      estimated_remaining_seconds = estimated_remaining_seconds;
      peak_memory_usage_mb = peak_memory_usage_mb;
      total_items = total_items;
      processed_items = processed_items;
      successful_items = successful_items;
      failed_items = failed_items;
      skipped_items = skipped_items;
      filtered_archives = filtered_archives;
      filtered_items = filtered_items;
      retried_items = retried_items;
      idempotent_replays = idempotent_replays;
      dry_run_items = dry_run_items;
      rehydrated_items = rehydrated_items;
      rehydration_failures = rehydration_failures;
      rehydrated_bytes = rehydrated_bytes;
      sis_cache_hits = sis_cache_hits;
      sis_cache_misses = sis_cache_misses;
      reconciled_items = reconciled_items;
      missing_items = missing_items;
      checksum_mismatches = checksum_mismatches;
      throttled_uploads = 0;
      retry_after_count = 0;
      temporary_failures = 0;
      worker_utilization = rt.zero_float;
      uploaded_items = uploaded_items;
      verification_failures = verification_failures;
      total_bytes = total_bytes;
      started_at = started_at;
      finished_at = finished_at;
    })

  pub read_report : Json F → Option (ExecutionReport F)
  read_report v = do
    timing ← field "timing" v
    scope ← field "scope" v
    filters ← field "filters" v
    duration_seconds ← field "duration_seconds" timing >>= as_number
    completed ← field "completed" v >>= as_boolean
    job_id ← field "job_id" v >>= optional as_text
    started_at ← field "started_at" timing >>= optional as_datetime
    completed_at ← field "completed_at" timing >>= optional as_datetime
    resumed ← field "resumed" v >>= as_boolean
    checkpoint_sequence ← field "checkpoint_sequence" v >>= optional as_natural
    discovered_archives ← field "discovered_archives" scope >>= as_natural
    extracted_items ← field "extracted_items" scope >>= as_natural
    transformed_items ← field "transformed_items" scope >>= as_natural
    warnings ← field "warnings" v >>= read_texts
    final_status ← field "final_status" v >>= optional as_text
    summary ← field "summary" v >>= optional as_text
    error_breakdown ← field "error_breakdown" v >>= as_list read_error_breakdown_entry
    export_schema_version ← field "export_schema_version" v >>= as_text
    metrics ← field "metrics" v >>= optional read_metrics
    reconciliation ← field "reconciliation" v >>= optional read_reconciliation
    archive_names ← field "archive_names" filters >>= optional read_texts
    folder_paths ← field "folder_paths" filters >>= optional read_texts
    start_date ← field "start_date" filters >>= optional as_datetime
    end_date ← field "end_date" filters >>= optional as_datetime
    some (record {
      successful_steps = 0;
      failed_steps = 0;
      skipped_steps = 0;
      duration_seconds = duration_seconds;
      completed = completed;
      job_id = job_id;
      started_at = started_at;
      completed_at = completed_at;
      resumed = resumed;
      checkpoint_sequence = checkpoint_sequence;
      discovered_archives = discovered_archives;
      extracted_items = extracted_items;
      transformed_items = transformed_items;
      warnings = warnings;
      final_status = final_status;
      summary = summary;
      error_breakdown = error_breakdown;
      export_schema_version = export_schema_version;
      metrics = metrics;
      reconciliation = reconciliation;
      archive_names = archive_names;
      folder_paths = folder_paths;
      start_date = start_date;
      end_date = end_date;
    })

module _ {F : Type 0} (rt : Runtime F) (parse : String → Option ℕ)
    (parse-isoformat : (t : ℕ) → parse (rt.isoformat t) ≡ some t) where
  serialize_datetime-read :
      (t : Option ℕ) → optional (as_datetime rt parse) (serialize_datetime rt t) ≡ some t
  unfolding serialize_datetime
  serialize_datetime-read none = refl
  serialize_datetime-read (some t) = rw (parse-isoformat t) refl

  serialize_metrics-read :
      (m : Option (Metrics F))
      → optional (read_metrics rt parse) (serialize_metrics rt m)
        ≡ some (Option.map (exported_metrics rt) m)
  unfolding serialize_metrics read_metrics
  serialize_metrics-read none = refl
  serialize_metrics-read (some m) =
      rw
        (
          optional_number-read F m.estimated_remaining_seconds,
          optional_number-read F m.peak_memory_usage_mb,
          serialize_datetime-read m.started_at,
          serialize_datetime-read m.finished_at,
        )
        refl

  pub execution_report_to_dict-read :
      (r : ExecutionReport F)
      → read_report rt parse (execution_report_to_dict rt r) ≡ some (exported rt r)
  unfolding execution_report_to_dict read_report
  execution_report_to_dict-read r =
      rw
        (
          serialize_datetime-read r.started_at,
          serialize_datetime-read r.completed_at,
          serialize_datetime-read r.start_date,
          serialize_datetime-read r.end_date,
          serialize_tuple-read F r.archive_names,
          serialize_tuple-read F r.folder_paths,
          optional_text-read F r.job_id,
          optional_integer-read F r.checkpoint_sequence,
          text_list-read F r.warnings,
          read_elements-array_of serialize_error_breakdown_entry read_error_breakdown_entry
              (serialize_error_breakdown_entry-read F) r.error_breakdown,
          serialize_metrics-read r.metrics,
          serialize_reconciliation-read F r.reconciliation,
        )
        refl
