-- ===== src/Upload/Emission.antt =====
-- upload_items_step.py: the documents without their duplicates, and the loop that sorts the
-- outcomes into the batch.
use enterprise_vault_migrati.Prelude.{
  String, Bool, false, Option, none, some, List, [], ◌∷◌, not, if◌then◌else◌, text_in, or_text,
}
use enterprise_vault_migrati.Runtime.{Runtime}
use enterprise_vault_migrati.Dict
use enterprise_vault_migrati.Dict.{Dict}
use enterprise_vault_migrati.Errors.{ok, err, other_error, Attempt, plain, ◌>>=◌}
use enterprise_vault_migrati.Contracts.Documents.{TransformedDocument, UploadResult}

-- The documents with new source identifiers, in order.
unfoldable pub unique_documents : List String → List TransformedDocument → List TransformedDocument
unique_documents seen [] = []
unique_documents seen (d ∷ ds) =
    let again = unique_documents seen ds in
    let rest = unique_documents (d.source_identifier ∷ seen) ds in
    if text_in d.source_identifier seen then again else d ∷ rest

-- `{document.source_identifier: result for document, result in zip(…)}`
unfoldable pub results_by_identifier :
    List TransformedDocument → List UploadResult → Dict UploadResult
results_by_identifier [] us = []
results_by_identifier (d ∷ ds) [] = []
results_by_identifier (d ∷ ds) (u ∷ us) = (d.source_identifier, u) ∷ results_by_identifier ds us

-- What the loop over the batch builds, without the two times of the UploadBatchResult.
pub record Batch : Type 0 where
  pub uploaded_documents : List TransformedDocument
  pub failed_documents : List TransformedDocument
  pub skipped_documents : List TransformedDocument
  pub uploaded_document_ids : List String
  pub item_results : List UploadResult

abbrev pub empty_batch : Batch
empty_batch = record {
  uploaded_documents = [];
  failed_documents = [];
  skipped_documents = [];
  uploaded_document_ids = [];
  item_results = [];
}

module _ {F : Type 0} (rt : Runtime F) where
  -- _build_item_result; no call of it passes the three arguments that have defaults
  unfoldable pub build_item_result : TransformedDocument → Bool → Option String → UploadResult
  build_item_result d success error_message = record {
    item_id = rt.uuid_of_name d.source_identifier;
    success = success;
    target_identifier = some d.source_identifier;
    error_message = error_message;
    idempotent_replay = false;
    dry_run = false;
  }

  -- one document of the batch, put in front of what the later documents give
  unfoldable pub emit_one : TransformedDocument → UploadResult → Batch → Batch
  emit_one d u b =
      if u.dry_run
      then record b {
        skipped_documents = d ∷ b.skipped_documents;
        item_results = u ∷ b.item_results;
      }
      else if not u.success
      then record b { failed_documents = d ∷ b.failed_documents; item_results = u ∷ b.item_results }
      else record b {
        uploaded_documents = d ∷ b.uploaded_documents;
        uploaded_document_ids =
            or_text u.target_identifier d.source_identifier ∷ b.uploaded_document_ids;
        item_results = u ∷ b.item_results;
      }

  unfoldable pub emit_duplicate : TransformedDocument → Batch → Batch
  emit_duplicate d b = record b {
    skipped_documents = d ∷ b.skipped_documents;
    item_results =
        build_item_result d false (some "Skipped duplicate transformed document") ∷ b.item_results;
  }

  -- `unique_result_by_identifier[identifier]`
  unfoldable pub result_of : String → Dict UploadResult → Attempt F UploadResult
  result_of k results = elim (Dict.get k results) [
    | none ↦ err (plain other_error k)
    | some u ↦ ok u
  ]

  -- the loop over the transformed documents
  unfoldable pub emit : Dict UploadResult → List String → List TransformedDocument → Attempt F Batch
  unfolding result_of
  emit results emitted [] = ok empty_batch
  emit results emitted (d ∷ ds) =
      let again = emit results emitted ds in
      let rest = emit results (d.source_identifier ∷ emitted) ds in
      if text_in d.source_identifier emitted
      then (again >>= λ b. ok (emit_duplicate d b))
      else (result_of d.source_identifier results >>= λ u. rest >>= λ b. ok (emit_one d u b))
