-- ===== src/Examples/Results.antt =====
-- Verification, the error breakdown and finalization at concrete inputs.
use mathlib.Core.Option
use enterprise_vault_migrati.Prelude.{
  AllDistinct, ℕ, ◌≡◌, ◌≢◌, ◌↔◌, ◌||◌, ◌&&◌, refl, true, false, Option, none, some, [], ◌∷◌, not,
  All, Some, String, text_in, length, map,
}
use enterprise_vault_migrati.Dict
use enterprise_vault_migrati.Errors.{ok}
use enterprise_vault_migrati.StateMachine.{StateMachine, is_terminal, same_state}
use enterprise_vault_migrati.Contracts.{ErrorBreakdownEntry}
use enterprise_vault_migrati.Contracts.Documents.{
  TransformedDocument, UploadBatchResult, UploadResult, VerificationResult,
}
use enterprise_vault_migrati.Context.{StepContext, known_report}
use enterprise_vault_migrati.Target.{storage_get, storage_add, upload_document}
use enterprise_vault_migrati.Target.RateLimiter.{acquire_delay_seconds}
use enterprise_vault_migrati.Target.Adapter.{
  Adapter, Reading, get_uploaded_document, upload_archived_file, ensure_session,
  build_upload_result, map_document,
}
use enterprise_vault_migrati.Target.Adapter.ReadBack.{adapter_port}
use enterprise_vault_migrati.Upload.Emission.{build_item_result}
use enterprise_vault_migrati.Upload.Processing.{process_all, process_transformed_document}
use enterprise_vault_migrati.Upload.Unique.{identifiers}
use enterprise_vault_migrati.Verify.{verify, check_documents, build_result}
use enterprise_vault_migrati.Verify.Outcome.{Sorts, check_documents-Sorts}
use enterprise_vault_migrati.Verify.RoundTrip.{uploaded_verifies}
use enterprise_vault_migrati.Verify.Totals.{Published, verify_answers}
use enterprise_vault_migrati.Reporting.Summary.{final_status_failed}
use enterprise_vault_migrati.Reporting.Breakdown.{verification_entry, failure_reasons}
use enterprise_vault_migrati.Reporting.Reasons.{verification_codes}
use enterprise_vault_migrati.Finalize.{has_failed_execution, finalize_migration}
use enterprise_vault_migrati.Finalize.Counts.{from, documents_of}
use enterprise_vault_migrati.Finalize.Reconciliation.{
  resolve_reconciliation, is_dry_run_mode, lost_identifiers,
}
use enterprise_vault_migrati.Finalize.Ending.{ending, state_before, finalize_terminal}
use enterprise_vault_migrati.Finalize.Verdict.{
  HasNoStatus, published_status, failed_verdict, successful_verdict,
}
use enterprise_vault_migrati.Examples.Data.{
  nat_runtime, document_a, document_b, forged_a, transformed, context,
}

-- The target has `document_a` with another checksum, and nothing else.
abbrev forging : String → Option TransformedDocument
forging k = Dict.get k (("a", forged_a) ∷ [])

check_documents-Sorts_example :
    Sorts forging
      (document_a ∷ document_b ∷ [])
      (check_documents forging (document_a ∷ document_b ∷ []))
check_documents-Sorts_example = check_documents-Sorts forging (document_a ∷ document_b ∷ [])

verification_codes_example :
    All
      (λ (e : ErrorBreakdownEntry). e.code ≡ "verification_failed")
      (map (verification_entry [] "failed") (
        failure_reasons
          (build_result (check_documents forging (document_a ∷ document_b ∷ [])) 1 2)))
verification_codes_example =
    verification_codes forging (document_a ∷ document_b ∷ []) 1 2 [] "failed"

abbrev uploaded : UploadBatchResult
uploaded = record {
  uploaded_documents = document_a ∷ document_b ∷ [];
  failed_documents = [];
  skipped_documents = [];
  uploaded_document_ids = "a" ∷ "b" ∷ [];
  item_results = [];
  started_at = some 1;
  completed_at = some 2;
}

abbrev verified : VerificationResult
verified = record {
  verified_document_ids = "a" ∷ "b" ∷ [];
  failed_document_ids = [];
  missing_document_ids = [];
  checksum_mismatches = [];
  metadata_mismatches = [];
  verified_count = 2;
  failed_count = 0;
  started_at = some 1;
  completed_at = some 2;
  warnings = [];
}

-- A run of which every document was uploaded and verified.
abbrev finished : StepContext ℕ
finished = record (context false) {
  transformation_result =
      some (record transformed { transformed_documents = document_a ∷ document_b ∷ [] });
  upload_result = some uploaded;
  verification_result = some verified;
}

verify_answers_example :
    (c' : StepContext ℕ) × (verify nat_runtime forging finished ≡ ok c')
    × Published nat_runtime forging finished uploaded c'
verify_answers_example =
    verify_answers nat_runtime forging finished
      (record transformed { transformed_documents = document_a ∷ document_b ∷ [] }) uploaded refl
      refl

abbrev empty_adapter : Adapter ℕ
empty_adapter = record {
  workspace_id = "w";
  active_session = none;
  document_storage = [];
  session_id = none;
  started_at = 0;
  active_session_id = none;
  rate_limiter = record { requests_per_second = none; next_available_at = none };
  uploaded_documents = [];
}

abbrev reads : ℕ → Reading ℕ
reads n = record { now = 7; fresh = "s"; failure = λ t. none }

finalize_terminal_example :
    Some
      (λ (m : StateMachine).
        (m.current_state
          ≡ ending (has_failed_execution finished) (state_before nat_runtime finished))
        × (is_terminal m.current_state ≡ true))
      (finalize_migration nat_runtime finished).state_machine
finalize_terminal_example = finalize_terminal nat_runtime finished

finished-HasNoStatus : HasNoStatus nat_runtime finished
unfolding known_report Option.bind
finished-HasNoStatus = refl

failed_verdict_example : (published_status nat_runtime finished ≡ some final_status_failed) ↔ (
    (has_failed_execution finished || not (resolve_reconciliation finished).is_reconciled) ≡ true)
failed_verdict_example = failed_verdict nat_runtime finished finished-HasNoStatus

finished_succeeds :
    (has_failed_execution finished || not (resolve_reconciliation finished).is_reconciled) ≡ false
unfolding has_failed_execution resolve_reconciliation same_state
finished_succeeds = refl

finished_status : published_status nat_runtime finished ≢ some final_status_failed
finished_status e = cc (finished_succeeds, failed_verdict_example.0 e)

finished_wet :
    is_dry_run_mode finished.execution_context.configuration finished.upload_result ≡ false
unfolding is_dry_run_mode
finished_wet = refl

successful_verdict_example :
    (length (documents_of finished.transformation_result)
      ≡ from 0 (λ (v : VerificationResult). v.verified_count) finished.verification_result)
    × (from [] (λ (v : VerificationResult). v.checksum_mismatches) finished.verification_result
        ≡ [])
    × ((text_in "a" (lost_identifiers finished.upload_result finished.verification_result)
          && text_in "a" (identifiers (documents_of finished.transformation_result)))
        ≡ false)
successful_verdict_example =
    successful_verdict nat_runtime finished "a" finished-HasNoStatus finished_status finished_wet

abbrev made : String → UploadResult
made k = record {
  item_id = k;
  success = true;
  target_identifier = some k;
  error_message = none;
  idempotent_replay = false;
  dry_run = false;
}

both_uploaded :
    (process_all nat_runtime
      (adapter_port nat_runtime reads)
      true
      false
      (document_a ∷ document_b ∷ [])
      (0, empty_adapter)).0
    ≡ ok (made "a" ∷ made "b" ∷ [])
unfolding process_all process_transformed_document adapter_port upload_archived_file
    acquire_delay_seconds storage_get Dict.get upload_document ensure_session build_upload_result
    storage_add Dict.put map_document build_item_result
both_uploaded = refl

distinct_identifiers : AllDistinct (identifiers (document_a ∷ document_b ∷ []))
distinct_identifiers = (refl, (refl, tt))

uploaded_verifies_example :
    ((check_documents
        (λ k.
          get_uploaded_document k
            (process_all nat_runtime
              (adapter_port nat_runtime reads)
              true
              false
              (document_a ∷ document_b ∷ [])
              (0, empty_adapter)).1.1)
        (document_a ∷ document_b ∷ [])).verified_document_ids
      ≡ "a" ∷ "b" ∷ [])
    × ((check_documents
          (λ k.
            get_uploaded_document k
              (process_all nat_runtime
                (adapter_port nat_runtime reads)
                true
                false
                (document_a ∷ document_b ∷ [])
                (0, empty_adapter)).1.1)
          (document_a ∷ document_b ∷ [])).failed_document_ids
        ≡ [])
uploaded_verifies_example =
    uploaded_verifies nat_runtime reads (document_a ∷ document_b ∷ []) (0, empty_adapter)
      distinct_identifiers both_uploaded (refl, (refl, tt))
