-- ===== src/Finalize/Counts.antt =====
-- The warnings, the counts and the current document that finalization takes from the stages' results:
-- src/migration_engine/steps/finalize_migration_step.py.
use Prim.Native.String.{◌++◌ as ◌+s◌}
use enterprise_vault_migrati.Prelude.{
  ℕ, ◌+◌, String, Bool, Option, none, some, List, [], ◌∷◌, ◌++◌, reverse, if◌then◌else◌, ltb,
  text_in, length, sum_by, last?, is_empty, or_option,
}
use enterprise_vault_migrati.Runtime.{Runtime}
use enterprise_vault_migrati.Contracts.Documents.{
  TransformedDocument, TransformationResult, UploadBatchResult, VerificationResult,
  ExtractionResult,
}
use enterprise_vault_migrati.Context.{StepContext}

-- `f(result) if result is not None else default`
abbrev pub from {ℓ κ} : {A : Type ℓ} {B : Type κ} → B → (A → B) → Option A → B
from default f none = default
from default f (some x) = f x

-- `if n > 0: warnings.append(f"{n} …")`
unfoldable pub warn : {F : Type 0} → Runtime F → ℕ → String → List String
warn rt n text = if ltb 0 n then (rt.decimal n +s text) ∷ [] else []

abbrev pub documents_of : Option TransformationResult → List TransformedDocument
documents_of = from [] (λ t. t.transformed_documents)

abbrev pub uploaded_of : Option UploadBatchResult → List TransformedDocument
uploaded_of = from [] (λ u. u.uploaded_documents)

abbrev bytes_of : List TransformedDocument → ℕ
bytes_of ds = sum_by (λ (d : TransformedDocument). d.size_bytes) ds

-- the first document whose identifier is in the list
unfoldable pub find_verified : List String → List TransformedDocument → Option TransformedDocument
find_verified ids [] = none
find_verified ids (d ∷ ds) =
    if text_in d.source_identifier ids then some d else find_verified ids ds

-- _build_errors
unfoldable pub build_errors : Bool → List String → List String
build_errors failed warnings = if failed then "Migration execution failed." ∷ warnings else []

-- the last uploaded document that was verified
unfoldable pub last_verified :
    Option VerificationResult → Option UploadBatchResult → Option TransformedDocument
unfolding find_verified
last_verified (some v) (some u) =
    find_verified v.verified_document_ids (reverse u.uploaded_documents)
last_verified _ _ = none

module _ {F : Type 0} where
  -- _build_warnings
  unfoldable pub build_warnings : Runtime F → StepContext F → List String
  unfolding warn
  build_warnings rt c =
      warn rt (from 0 (λ t. t.failed_items) c.transformation_result) " items failed transformation"
      ++ warn rt (from 0 (λ u. length u.failed_documents) c.upload_result) " items failed upload"
      ++ warn rt (from 0 (λ v. v.failed_count) c.verification_result) " items failed verification"
      ++ warn rt (from 0 (λ u. length u.skipped_documents) c.upload_result)
          " items were skipped during upload"
      ++ warn rt (from 0 (λ t. t.skipped_items) c.transformation_result)
          " items were skipped during transformation"

  -- the last uploaded document, or else the last transformed one
  unfoldable pub last_processed : StepContext F → Option TransformedDocument
  last_processed c =
      or_option (last? (uploaded_of c.upload_result)) (last? (documents_of c.transformation_result))

  -- _resolve_current_document
  unfoldable pub resolve_current_document : StepContext F → Option TransformedDocument
  unfolding last_verified last_processed
  resolve_current_document c =
      or_option (last_verified c.verification_result c.upload_result) (last_processed c)

  -- _resolve_total_items
  unfoldable pub resolve_total_items : StepContext F → ℕ
  resolve_total_items c =
      from
        (from
          (from
            (from 0 (λ (v : VerificationResult). v.verified_count + v.failed_count)
              c.verification_result)
            (λ (u : UploadBatchResult).
              length u.uploaded_documents + length u.failed_documents + length u.skipped_documents)
            c.upload_result)
          (λ (t : TransformationResult).
            length t.transformed_documents + t.failed_items + t.skipped_items)
          c.transformation_result)
        (λ (e : ExtractionResult). e.total_items) c.extraction_result

  -- _resolve_successful_items
  unfoldable pub resolve_successful_items : StepContext F → ℕ
  resolve_successful_items c =
      from
        (from
          (from (from 0 (λ (e : ExtractionResult). e.total_items) c.extraction_result)
            (λ (t : TransformationResult). length t.transformed_documents) c.transformation_result)
          (λ (u : UploadBatchResult). length u.uploaded_documents) c.upload_result)
        (λ (v : VerificationResult). v.verified_count) c.verification_result

  -- _resolve_failed_items
  unfoldable pub resolve_failed_items : StepContext F → ℕ
  resolve_failed_items c =
      from 0 (λ t. t.failed_items) c.transformation_result
      + from 0 (λ u. length u.failed_documents) c.upload_result
      + from 0 (λ v. v.failed_count) c.verification_result

  -- _resolve_skipped_items
  unfoldable pub resolve_skipped_items : StepContext F → ℕ
  resolve_skipped_items c =
      from 0 (λ t. t.skipped_items) c.transformation_result
      + from 0 (λ u. length u.skipped_documents) c.upload_result

  -- _resolve_processed_bytes; no documents have no bytes
  unfoldable pub resolve_processed_bytes : StepContext F → ℕ
  resolve_processed_bytes c =
      if is_empty (uploaded_of c.upload_result)
      then bytes_of (documents_of c.transformation_result)
      else bytes_of (uploaded_of c.upload_result)
