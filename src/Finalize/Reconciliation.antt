-- ===== src/Finalize/Reconciliation.antt =====
-- `_resolve_reconciliation` of src/migration_engine/steps/finalize_migration_step.py.
use enterprise_vault_migrati.Prelude.{
  ℕ, ◌+◌, ◌==◌, String, Bool, false, Option, List, [], ◌∷◌, ◌++◌, ◌&&◌, ◌||◌, not, if◌then◌else◌,
  leb, text_in, length, count_if, any_of, is_empty, map,
}
use enterprise_vault_migrati.Contracts.{Configuration, ReconciliationResult}
use enterprise_vault_migrati.Contracts.Documents.{
  TransformedDocument, UploadResult, UploadBatchResult, VerificationResult,
}
use enterprise_vault_migrati.Context.{StepContext}
use enterprise_vault_migrati.Finalize.Counts.{from, documents_of}

-- _resolve_uploaded_items, _resolve_idempotent_replays and _resolve_dry_run_items
unfoldable pub resolve_uploaded_items : Option UploadBatchResult → ℕ
resolve_uploaded_items = from 0 (λ u.
    count_if (λ (r : UploadResult). r.success && not r.idempotent_replay && not r.dry_run)
      u.item_results)

unfoldable pub resolve_idempotent_replays : Option UploadBatchResult → ℕ
resolve_idempotent_replays =
    from 0 (λ u. count_if (λ (r : UploadResult). r.idempotent_replay) u.item_results)

unfoldable pub resolve_dry_run_items : Option UploadBatchResult → ℕ
resolve_dry_run_items = from 0 (λ u. count_if (λ (r : UploadResult). r.dry_run) u.item_results)

-- `dry_run_mode`
unfoldable pub is_dry_run_mode : {F : Type 0} → Configuration F → Option UploadBatchResult → Bool
is_dry_run_mode c u =
    c.dry_run || from false (λ u'. any_of (λ (r : UploadResult). r.dry_run) u'.item_results) u

-- the loop of `_resolve_missing_items`: the identifiers in `lost`, once each, in order
unfoldable pub collect_missing : List String → List String → List TransformedDocument → List String
collect_missing lost seen [] = []
collect_missing lost seen (d ∷ ds) =
    let k = d.source_identifier in
    let again = collect_missing lost seen ds in
    let rest = collect_missing lost (k ∷ seen) ds in
    if text_in k seen then again else if text_in k lost then k ∷ rest else again

-- what verification or the upload lost
unfoldable pub lost_identifiers : Option UploadBatchResult → Option VerificationResult → List String
lost_identifiers u v =
    from [] (λ r. r.missing_document_ids) v
    ++ from [] (λ r. map (λ (d : TransformedDocument). d.source_identifier) r.failed_documents) u

-- _resolve_missing_items
unfoldable pub resolve_missing_items :
    List TransformedDocument
    → Option UploadBatchResult
    → Option VerificationResult
    → Bool
    → List String
unfolding collect_missing lost_identifiers
resolve_missing_items ds u v dry = if dry then [] else collect_missing (lost_identifiers u v) [] ds

-- _is_reconciled; unexpected_items is always empty
unfoldable pub is_reconciled : ReconciliationResult → Bool → Bool
is_reconciled r dry =
    if dry
    then (r.expected_items == r.dry_run_items)
      && (r.uploaded_items == 0)
      && is_empty r.missing_items
      && is_empty r.checksum_mismatches
      && is_empty r.unexpected_items
    else (r.expected_items == r.verified_items)
      && leb (r.uploaded_items + r.idempotent_replays) r.expected_items
      && is_empty r.missing_items
      && is_empty r.checksum_mismatches
      && is_empty r.unexpected_items

unfoldable pub reconciliation_status : Bool → Bool → String
reconciliation_status dry reconciled =
    if dry && reconciled
    then "dry_run_reconciled"
    else if reconciled
    then "reconciled"
    else "needs_review"

module _ {F : Type 0} where
  -- the counts of `_resolve_reconciliation`, before its verdict
  unfoldable pub reconciliation_counts : StepContext F → ReconciliationResult
  unfolding resolve_uploaded_items resolve_idempotent_replays resolve_dry_run_items
      resolve_missing_items is_dry_run_mode
  reconciliation_counts c = record {
    expected_items = length (documents_of c.transformation_result);
    uploaded_items = resolve_uploaded_items c.upload_result;
    verified_items = from 0 (λ v. v.verified_count) c.verification_result;
    idempotent_replays = resolve_idempotent_replays c.upload_result;
    dry_run_items = resolve_dry_run_items c.upload_result;
    missing_items =
        resolve_missing_items (documents_of c.transformation_result) c.upload_result
          c.verification_result (is_dry_run_mode c.execution_context.configuration c.upload_result);
    unexpected_items = [];
    checksum_mismatches = from [] (λ v. v.checksum_mismatches) c.verification_result;
    status = "";
    is_reconciled = false;
  }

  -- _resolve_reconciliation
  unfoldable pub resolve_reconciliation : StepContext F → ReconciliationResult
  unfolding reconciliation_counts is_reconciled reconciliation_status
  resolve_reconciliation c =
      let r = reconciliation_counts c in
      let dry = is_dry_run_mode c.execution_context.configuration c.upload_result in
      record r {
        status = reconciliation_status dry (is_reconciled r dry);
        is_reconciled = is_reconciled r dry;
      }
