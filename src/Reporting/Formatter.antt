-- ===== src/Reporting/Formatter.antt =====
-- src/migration_engine/reporting/report_formatter.py: a report as a dictionary of JSON values.
use enterprise_vault_migrati.Prelude.{ℕ, String, Option, none, some, List, [], ◌∷◌}
use enterprise_vault_migrati.Runtime.{Runtime}
use enterprise_vault_migrati.Contracts.{
  Metrics, ReconciliationResult, ErrorBreakdownEntry, ExecutionReport,
}
use enterprise_vault_migrati.Reporting.Json.{
  Json, null, boolean, integer, natural, number, text, array, object, array_of, members_of,
}
use enterprise_vault_migrati.Reporting.Summary.{
  build_execution_report_summary, resolve_final_status,
}

module _ {F : Type 0} where
  -- `None` or a text
  unfoldable pub optional_text : Option String → Json F
  optional_text none = null
  optional_text (some s) = text s

  -- `None` or a number
  unfoldable pub optional_integer : Option ℕ → Json F
  optional_integer none = null
  optional_integer (some n) = natural n

  -- `None` or a float
  unfoldable pub optional_number : Option F → Json F
  optional_number none = null
  optional_number (some x) = number x

  -- _serialize_tuple, and `list(…)` of a tuple of texts
  unfoldable pub text_list : List String → Json F
  text_list xs = array (array_of text xs)

  unfoldable pub serialize_tuple : Option (List String) → Json F
  unfolding text_list
  serialize_tuple none = null
  serialize_tuple (some xs) = text_list xs

  -- _serialize_reconciliation
  unfoldable pub serialize_reconciliation : Option ReconciliationResult → Json F
  unfolding text_list
  serialize_reconciliation none = null
  serialize_reconciliation (some x) = object (
      members_of (
        ("expected_items", natural x.expected_items)
        ∷ ("uploaded_items", natural x.uploaded_items)
        ∷ ("verified_items", natural x.verified_items)
        ∷ ("idempotent_replays", natural x.idempotent_replays)
        ∷ ("dry_run_items", natural x.dry_run_items)
        ∷ ("missing_items", text_list x.missing_items)
        ∷ ("unexpected_items", text_list x.unexpected_items)
        ∷ ("checksum_mismatches", text_list x.checksum_mismatches)
        ∷ ("status", text x.status)
        ∷ ("is_reconciled", boolean x.is_reconciled)
        ∷ []))

  -- _serialize_error_breakdown_entry
  unfoldable pub serialize_error_breakdown_entry : ErrorBreakdownEntry → Json F
  unfolding optional_text
  serialize_error_breakdown_entry e = object (
      members_of (
        ("source_identifier", optional_text e.source_identifier)
        ∷ ("stage", text e.stage)
        ∷ ("category", text e.category)
        ∷ ("code", text e.code)
        ∷ ("message", text e.message)
        ∷ ("retryable", boolean e.retryable)
        ∷ ("attempt_count", integer e.attempt_count)
        ∷ ("final_status", text e.final_status)
        ∷ ("archive_identifier", optional_text e.archive_identifier)
        ∷ ("item_type", optional_text e.item_type)
        ∷ []))

module _ {F : Type 0} (rt : Runtime F) where
  -- _serialize_datetime
  unfoldable pub serialize_datetime : Option ℕ → Json F
  serialize_datetime none = null
  serialize_datetime (some t) = text (rt.isoformat t)

  -- _serialize_metrics
  unfoldable pub serialize_metrics : Option (Metrics F) → Json F
  unfolding serialize_datetime optional_number
  serialize_metrics none = null
  serialize_metrics (some m) = object (
      members_of (
        ("duration_seconds", number m.duration_seconds)
        ∷ ("throughput_items_per_second", number m.throughput_items_per_second)
        ∷ ("average_item_size", natural m.average_item_size)
        ∷ ("processed_bytes", natural m.processed_bytes)
        ∷ ("estimated_remaining_seconds", optional_number m.estimated_remaining_seconds)
        ∷ ("peak_memory_usage_mb", optional_number m.peak_memory_usage_mb)
        ∷ ("total_items", natural m.total_items)
        ∷ ("processed_items", natural m.processed_items)
        ∷ ("successful_items", natural m.successful_items)
        ∷ ("failed_items", natural m.failed_items)
        ∷ ("skipped_items", natural m.skipped_items)
        ∷ ("filtered_archives", natural m.filtered_archives)
        ∷ ("filtered_items", natural m.filtered_items)
        ∷ ("retried_items", natural m.retried_items)
        ∷ ("idempotent_replays", natural m.idempotent_replays)
        ∷ ("dry_run_items", natural m.dry_run_items)
        ∷ ("rehydrated_items", natural m.rehydrated_items)
        ∷ ("rehydration_failures", natural m.rehydration_failures)
        ∷ ("rehydrated_bytes", natural m.rehydrated_bytes)
        ∷ ("sis_cache_hits", natural m.sis_cache_hits)
        ∷ ("sis_cache_misses", natural m.sis_cache_misses)
        ∷ ("reconciled_items", natural m.reconciled_items)
        ∷ ("missing_items", natural m.missing_items)
        ∷ ("checksum_mismatches", natural m.checksum_mismatches)
        ∷ ("uploaded_items", natural m.uploaded_items)
        ∷ ("verification_failures", natural m.verification_failures)
        ∷ ("total_bytes", natural m.total_bytes)
        ∷ ("started_at", serialize_datetime m.started_at)
        ∷ ("finished_at", serialize_datetime m.finished_at)
        ∷ []))

  -- format_execution_report
  unfoldable pub format_execution_report : ExecutionReport F → String
  format_execution_report r = elim r.summary [
    | some summary ↦ summary
    | none ↦ build_execution_report_summary rt r none
  ]

  -- execution_report_to_dict
  unfoldable pub execution_report_to_dict : ExecutionReport F → Json F
  unfolding optional_text optional_integer text_list serialize_tuple serialize_reconciliation
      serialize_error_breakdown_entry serialize_datetime serialize_metrics
  execution_report_to_dict r = object (
      members_of (
        ("export_schema_version", text r.export_schema_version)
        ∷ ("job_id", optional_text r.job_id)
        ∷ ("final_status", text (resolve_final_status r))
        ∷ ("completed", boolean r.completed)
        ∷ ("resumed", boolean r.resumed)
        ∷ ("checkpoint_sequence", optional_integer r.checkpoint_sequence)
        ∷ ("summary", text (format_execution_report r))
        ∷ (
          "timing",
          object (
              members_of (
                ("started_at", serialize_datetime r.started_at)
                ∷ ("completed_at", serialize_datetime r.completed_at)
                ∷ ("duration_seconds", number r.duration_seconds)
                ∷ [])),
        )
        ∷ (
          "scope",
          object (
              members_of (
                ("discovered_archives", natural r.discovered_archives)
                ∷ ("extracted_items", natural r.extracted_items)
                ∷ ("transformed_items", natural r.transformed_items)
                ∷ [])),
        )
        ∷ (
          "filters",
          object (
              members_of (
                ("archive_names", serialize_tuple r.archive_names)
                ∷ ("folder_paths", serialize_tuple r.folder_paths)
                ∷ ("start_date", serialize_datetime r.start_date)
                ∷ ("end_date", serialize_datetime r.end_date)
                ∷ [])),
        )
        ∷ ("warnings", text_list r.warnings)
        ∷ ("error_breakdown", array (array_of serialize_error_breakdown_entry r.error_breakdown))
        ∷ ("metrics", serialize_metrics r.metrics)
        ∷ ("reconciliation", serialize_reconciliation r.reconciliation)
        ∷ []))
