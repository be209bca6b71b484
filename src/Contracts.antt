-- ===== src/Contracts.antt =====
-- The engine's immutable contracts: src/migration_engine/metrics.py, configuration.py,
-- execution_result.py and contracts/*.py. A `datetime` is a number of microseconds, `F` is `float`.
-- A field that refers to the run's shared progress tracker or state machine is left out of the
-- contract: those two objects are threaded through the operations that mutate them.
pub mod Source
pub mod Documents
use enterprise_vault_migrati.Prelude.{
  ℕ, ℤ, String, Bool, true, false, Option, none, some, List, [], if◌then◌else◌, ltb,
}
use enterprise_vault_migrati.Runtime.{Runtime}
use enterprise_vault_migrati.Errors.{ok, err, Attempt, plain, validation_error}
use enterprise_vault_migrati.StateMachine.{MigrationState}

-- MigrationMetrics
pub record Metrics (F : Type 0) : Type 0 where
  pub duration_seconds : F
  pub throughput_items_per_second : F
  pub average_item_size : ℕ
  pub processed_bytes : ℕ
  pub estimated_remaining_seconds : Option F
  pub peak_memory_usage_mb : Option F
  pub total_items : ℕ
  pub processed_items : ℕ
  pub successful_items : ℕ
  pub failed_items : ℕ
  pub skipped_items : ℕ
  pub filtered_archives : ℕ
  pub filtered_items : ℕ
  pub retried_items : ℕ
  pub idempotent_replays : ℕ
  pub dry_run_items : ℕ
  pub rehydrated_items : ℕ
  pub rehydration_failures : ℕ
  pub rehydrated_bytes : ℕ
  pub sis_cache_hits : ℕ
  pub sis_cache_misses : ℕ
  pub reconciled_items : ℕ
  pub missing_items : ℕ
  pub checksum_mismatches : ℕ
  pub throttled_uploads : ℕ
  pub retry_after_count : ℕ
  pub temporary_failures : ℕ
  pub worker_utilization : F
  pub uploaded_items : ℕ
  pub verification_failures : ℕ
  pub total_bytes : ℕ
  pub started_at : Option ℕ
  pub finished_at : Option ℕ

-- The field defaults, with the six values that have none.
unfoldable pub metrics_defaults :
    {F : Type 0} → Runtime F → F → F → ℕ → ℕ → Option F → Option F → Metrics F
metrics_defaults rt duration throughput average bytes remaining peak = record {
  duration_seconds = duration;
  throughput_items_per_second = throughput;
  average_item_size = average;
  processed_bytes = bytes;
  estimated_remaining_seconds = remaining;
  peak_memory_usage_mb = peak;
  total_items = 0;
  processed_items = 0;
  successful_items = 0;
  failed_items = 0;
  skipped_items = 0;
  filtered_archives = 0;
  filtered_items = 0;
  retried_items = 0;
  idempotent_replays = 0;
  dry_run_items = 0;
  rehydrated_items = 0;
  rehydration_failures = 0;
  rehydrated_bytes = 0;
  sis_cache_hits = 0;
  sis_cache_misses = 0;
  reconciled_items = 0;
  missing_items = 0;
  checksum_mismatches = 0;
  throttled_uploads = 0;
  retry_after_count = 0;
  temporary_failures = 0;
  worker_utilization = rt.zero_float;
  uploaded_items = 0;
  verification_failures = 0;
  total_bytes = 0;
  started_at = none;
  finished_at = none;
}

-- MigrationConfiguration
pub record Configuration (F : Type 0) : Type 0 where
  pub dry_run : Bool
  pub archive_names : Option (List String)
  pub folder_paths : Option (List String)
  pub start_date : Option ℕ
  pub end_date : Option ℕ
  pub upload_worker_count : ℕ
  pub upload_requests_per_second : Option F

-- MigrationConfiguration()
unfoldable pub default_configuration : {F : Type 0} → Configuration F
default_configuration = record {
  dry_run = false;
  archive_names = none;
  folder_paths = none;
  start_date = none;
  end_date = none;
  upload_worker_count = 1;
  upload_requests_per_second = none;
}

-- MigrationConfiguration.__post_init__; `not_positive` is `requests_per_second <= 0.0`
unfoldable pub not_positive : {F : Type 0} → Runtime F → Option F → Bool
not_positive rt none = false
not_positive rt (some x) = if rt.float_lt rt.zero_float x then false else true

unfoldable pub validate_configuration :
    {F : Type 0} → Runtime F → Configuration F → Attempt F (Configuration F)
unfolding not_positive
validate_configuration rt c =
    if ltb c.upload_worker_count 1
    then err (plain validation_error "upload_worker_count must be greater than or equal to 1.")
    else if not_positive rt c.upload_requests_per_second
    then err (
        plain validation_error "upload_requests_per_second must be greater than 0 when configured.")
    else ok c

-- ProgressSnapshot
pub record ProgressSnapshot : Type 0 where
  pub total_items : ℕ
  pub processed_items : ℕ
  pub successful_items : ℕ
  pub failed_items : ℕ
  pub skipped_items : ℕ
  pub current_archive : Option String
  pub current_mailbox : Option String
  pub current_item : Option String
  pub started_at : ℕ
  pub last_updated : ℕ

-- ReconciliationResult
pub record ReconciliationResult : Type 0 where
  pub expected_items : ℕ
  pub uploaded_items : ℕ
  pub verified_items : ℕ
  pub idempotent_replays : ℕ
  pub dry_run_items : ℕ
  pub missing_items : List String
  pub unexpected_items : List String
  pub checksum_mismatches : List String
  pub status : String
  pub is_reconciled : Bool

-- ErrorBreakdownEntry
pub record ErrorBreakdownEntry : Type 0 where
  pub source_identifier : Option String
  pub stage : String
  pub category : String
  pub code : String
  pub message : String
  pub retryable : Bool
  pub attempt_count : ℤ
  pub final_status : String
  pub archive_identifier : Option String
  pub item_type : Option String

-- ExecutionReport
pub record ExecutionReport (F : Type 0) : Type 0 where
  pub successful_steps : ℕ
  pub failed_steps : ℕ
  pub skipped_steps : ℕ
  pub duration_seconds : F
  pub completed : Bool
  pub job_id : Option String
  pub started_at : Option ℕ
  pub completed_at : Option ℕ
  pub resumed : Bool
  pub checkpoint_sequence : Option ℕ
  pub discovered_archives : ℕ
  pub extracted_items : ℕ
  pub transformed_items : ℕ
  pub warnings : List String
  pub final_status : Option String
  pub summary : Option String
  pub error_breakdown : List ErrorBreakdownEntry
  pub export_schema_version : String
  pub metrics : Option (Metrics F)
  pub reconciliation : Option ReconciliationResult
  pub archive_names : Option (List String)
  pub folder_paths : Option (List String)
  pub start_date : Option ℕ
  pub end_date : Option ℕ

-- ExecutionReport(...), with the defaults of the fields that are not given
unfoldable pub report_defaults :
    {F : Type 0} → ℕ → ℕ → ℕ → F → Bool → Option (Metrics F) → Configuration F → ExecutionReport F
report_defaults successful failed skipped duration completed metrics c = record {
  successful_steps = successful;
  failed_steps = failed;
  skipped_steps = skipped;
  duration_seconds = duration;
  completed = completed;
  job_id = none;
  started_at = none;
  completed_at = none;
  resumed = false;
  checkpoint_sequence = none;
  discovered_archives = 0;
  extracted_items = 0;
  transformed_items = 0;
  warnings = [];
  final_status = none;
  summary = none;
  error_breakdown = [];
  export_schema_version = "1";
  metrics = metrics;
  reconciliation = none;
  archive_names = c.archive_names;
  folder_paths = c.folder_paths;
  start_date = c.start_date;
  end_date = c.end_date;
}

-- ExecutionContext
pub record ExecutionContext (F : Type 0) : Type 0 where
  pub migration_id : String
  pub configuration : Configuration F
  pub started_at : ℕ
  pub current_step : Option String
  pub metrics : Option (Metrics F)
  pub state : Option MigrationState
  pub current_timestamp : Option ℕ

-- ExecutionResult; a duration, which may be negative, is kept as the later and the earlier time
pub record ExecutionResult (F : Type 0) : Type 0 where
  pub success : Bool
  pub execution_report : Option (ExecutionReport F)
  pub metrics : Option (Metrics F)
  pub completed_at : Option ℕ
  pub duration : Option (ℕ × ℕ)
  pub warnings : List String
  pub errors : List String
