-- ===== src/Verify.antt =====
-- src/migration_engine/steps/verify_items_step.py over a target that the step only reads: `fetch` is
-- get_uploaded_document of the port in the state in which the step runs.
pub mod Metrics
pub mod Outcome
pub mod RoundTrip
pub mod Totals
use mathlib.Core.Option
use enterprise_vault_migrati.Prelude.{
  ℕ, ◌+◌, ◌==◌, String, Bool, Option, none, some, List, [], ◌∷◌, ◌&&◌, ◌||◌, if◌then◌else◌, str_eq,
  list_eq, option_eq, text_pair_eq, length, or_else, last?, any_of,
}
use enterprise_vault_migrati.Runtime.{Runtime, elapsed}
use enterprise_vault_migrati.Errors.{ok, err, value_error, Attempt, plain}
use enterprise_vault_migrati.StateMachine.{MigrationState}
use enterprise_vault_migrati.Contracts.{
  Metrics as StepMetrics, ProgressSnapshot, ExecutionReport, Configuration, report_defaults,
}
use enterprise_vault_migrati.Contracts.Documents.{
  TransformedDocument, TransformationResult, UploadResult, UploadBatchResult, VerificationResult,
}
use enterprise_vault_migrati.Tracker.{new_tracker, publish}
use enterprise_vault_migrati.Context.{
  StepContext, known_metrics, known_report, completed_at, resolve_state, resolve_machine,
}
use Metrics.{resolve_metrics}

-- _document_signature(a) == _document_signature(b)
unfoldable pub same_signature : TransformedDocument → TransformedDocument → Bool
same_signature a b =
    str_eq a.source_identifier b.source_identifier
    && str_eq a.archive_name b.archive_name
    && option_eq str_eq a.mailbox_address b.mailbox_address
    && str_eq a.subject b.subject
    && str_eq a.filename b.filename
    && str_eq a.content_type b.content_type
    && (a.size_bytes == b.size_bytes)
    && str_eq a.sender b.sender
    && list_eq str_eq a.recipients b.recipients
    && list_eq str_eq a.cc_recipients b.cc_recipients
    && list_eq str_eq a.bcc_recipients b.bcc_recipients
    && str_eq a.retention_policy b.retention_policy
    && str_eq a.department b.department
    && list_eq str_eq a.tags b.tags
    && list_eq text_pair_eq a.custom_properties b.custom_properties
    && list_eq str_eq a.attachment_filenames b.attachment_filenames
    && list_eq str_eq a.attachment_checksums b.attachment_checksums
    && list_eq (λ m n. m == n) a.attachment_sizes b.attachment_sizes
    && (a.created_at == b.created_at)
    && (a.modified_at == b.modified_at)

-- The five lists that the loop over the uploaded documents fills.
pub record Checks : Type 0 where
  pub verified_document_ids : List String
  pub failed_document_ids : List String
  pub missing_document_ids : List String
  pub checksum_mismatches : List String
  pub metadata_mismatches : List String

abbrev pub no_checks : Checks
no_checks = record {
  verified_document_ids = [];
  failed_document_ids = [];
  missing_document_ids = [];
  checksum_mismatches = [];
  metadata_mismatches = [];
}

-- `if not matches: mismatches.append(identifier)`
abbrev pub unless : Bool → String → List String → List String
unless matches k ks = if matches then ks else k ∷ ks

-- one document and what the target has of it, put in front of what the later documents give
unfoldable pub check_one : TransformedDocument → Option TransformedDocument → Checks → Checks
check_one d none c = record c {
  missing_document_ids = d.source_identifier ∷ c.missing_document_ids;
  failed_document_ids = d.source_identifier ∷ c.failed_document_ids;
}
check_one d (some t) c =
    let checksum_matches = str_eq t.checksum d.checksum in
    let metadata_matches = same_signature t d in
    if checksum_matches && metadata_matches
    then record c { verified_document_ids = d.source_identifier ∷ c.verified_document_ids }
    else record c {
      failed_document_ids = d.source_identifier ∷ c.failed_document_ids;
      checksum_mismatches = unless checksum_matches d.source_identifier c.checksum_mismatches;
      metadata_mismatches = unless metadata_matches d.source_identifier c.metadata_mismatches;
    }

-- the loop over the uploaded documents
unfoldable pub check_documents :
    (String → Option TransformedDocument) → List TransformedDocument → Checks
unfolding check_one
check_documents fetch [] = no_checks
check_documents fetch (d ∷ ds) = check_one d (fetch d.source_identifier) (check_documents fetch ds)

-- `dry_run_mode`
unfoldable pub is_dry_run : {F : Type 0} → Configuration F → UploadBatchResult → Bool
is_dry_run c u = c.dry_run || any_of (λ (r : UploadResult). r.dry_run) u.item_results

-- the documents that the loop visits
unfoldable pub checked_documents : Bool → UploadBatchResult → List TransformedDocument
checked_documents dry u = if dry then [] else u.uploaded_documents

-- `VerificationResult(…)`
unfoldable pub build_result : Checks → ℕ → ℕ → VerificationResult
build_result c started finished = record {
  verified_document_ids = c.verified_document_ids;
  failed_document_ids = c.failed_document_ids;
  missing_document_ids = c.missing_document_ids;
  checksum_mismatches = c.checksum_mismatches;
  metadata_mismatches = c.metadata_mismatches;
  verified_count = length c.verified_document_ids;
  failed_count = length c.failed_document_ids;
  started_at = some started;
  completed_at = some finished;
  warnings = [];
}

-- _build_snapshot
unfoldable pub build_snapshot :
    VerificationResult → ℕ → ℕ → Option TransformedDocument → ProgressSnapshot
build_snapshot v started finished current = record {
  total_items = v.verified_count + v.failed_count;
  processed_items = v.verified_count + v.failed_count;
  successful_items = v.verified_count;
  failed_items = v.failed_count;
  skipped_items = 0;
  current_archive = Option.map (λ (d : TransformedDocument). d.archive_name) current;
  current_mailbox = Option.bind current (λ (d : TransformedDocument). d.mailbox_address);
  current_item = Option.map (λ (d : TransformedDocument). d.filename) current;
  started_at = started;
  last_updated = finished;
}

module _ {F : Type 0} (rt : Runtime F) where
  -- _resolve_report
  unfoldable pub resolve_report :
      Option (ExecutionReport F)
      → StepMetrics F
      → Configuration F
      → ℕ
      → ℕ
      → Bool
      → ExecutionReport F
  resolve_report known metrics c started finished completed =
      let duration = elapsed rt started finished in
      let successful : ℕ = if completed then 1 else 0 in
      let failed : ℕ = if completed then 0 else 1 in
      elim known [
        | none ↦ report_defaults successful failed 0 duration completed (some metrics) c
        | some r ↦ record r {
          successful_steps = successful;
          failed_steps = failed;
          skipped_steps = 0;
          duration_seconds = duration;
          completed = completed;
          metrics = some metrics;
          archive_names = c.archive_names;
          folder_paths = c.folder_paths;
          start_date = c.start_date;
          end_date = c.end_date;
        }
      ]

  -- what `verify` finds out, before it publishes it
  unfoldable pub verification_of :
      (String → Option TransformedDocument) → StepContext F → UploadBatchResult → VerificationResult
  unfolding is_dry_run check_documents build_result
  verification_of fetch c u =
      build_result
        (check_documents fetch
          (checked_documents (is_dry_run c.execution_context.configuration u) u))
        c.execution_context.started_at (completed_at c.execution_context)

  -- from `updated_state = …` to the end of `verify`
  unfoldable pub finish_verify :
      StepContext F → UploadBatchResult → VerificationResult → StepContext F
  unfolding build_snapshot resolve_report is_dry_run checked_documents
  finish_verify c u v =
      let started = c.execution_context.started_at in
      let finished = completed_at c.execution_context in
      let configuration = c.execution_context.configuration in
      let dry = is_dry_run configuration u in
      let state = resolve_state MigrationState.verifying c.state_machine in
      let metrics = resolve_metrics rt (known_metrics c) u v started finished dry in
      let snapshot = build_snapshot v started finished (last? (checked_documents dry u)) in
      let completed = v.failed_count == 0 in
      let report =
        resolve_report (known_report c) metrics configuration started finished completed in
      let tracker =
        or_else c.progress_tracker
          (new_tracker snapshot (some metrics) none (some report) (some state)) in
      let e = record c.execution_context {
        current_step = some "VerifyItemsStep";
        metrics = some metrics;
        state = some state;
        current_timestamp = some finished;
      } in
      record c {
        execution_context = e;
        progress_tracker = some (publish e report metrics snapshot state tracker);
        state_machine = resolve_machine MigrationState.verifying c.state_machine;
        execution_report = some report;
        verification_result = some v;
      }

  verify_uploaded :
      (String → Option TransformedDocument)
      → StepContext F
      → Option TransformationResult
      → Option UploadBatchResult
      → Attempt F (StepContext F)
  verify_uploaded fetch c none u =
      err (plain value_error "Verification requires transformation results")
  verify_uploaded fetch c (some t) none =
      err (plain value_error "Verification requires upload results")
  verify_uploaded fetch c (some t) (some u) = ok (finish_verify c u (verification_of fetch c u))

  -- verify
  unfoldable pub verify :
      (String → Option TransformedDocument) → StepContext F → Attempt F (StepContext F)
  unfolding verify_uploaded verification_of finish_verify
  verify fetch c = verify_uploaded fetch c c.transformation_result c.upload_result
