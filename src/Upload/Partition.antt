-- ===== src/Upload/Partition.antt =====
-- Every document of a batch is counted once, whatever the target answers.
use enterprise_vault_migrati.Prelude.{
  ℕ, ◌+◌, ◌≤◌, ◌≡◌, String, Bool, List, [], ◌∷◌, ◌&&◌, if◌then◌else◌, text_in, length, count_if,
  arith, Bool-cases, inl, inr, All, Option-cases,
}
use enterprise_vault_migrati.Runtime.{Runtime}
use enterprise_vault_migrati.Dict
use enterprise_vault_migrati.Dict.{Dict}
use enterprise_vault_migrati.Dict.Laws.{get-All}
use enterprise_vault_migrati.Errors.{Returns, Returns-bind}
use enterprise_vault_migrati.Contracts.Documents.{TransformedDocument, UploadResult}
use enterprise_vault_migrati.Context.{TargetPort}
use enterprise_vault_migrati.Upload.Outcomes.{IsMade, process_unique-IsMade}
use enterprise_vault_migrati.Upload.{run_batch}
use enterprise_vault_migrati.Upload.Emission.{
  Batch, emit, emit_one, emit_duplicate, result_of, unique_documents, results_by_identifier,
  build_item_result,
}
use enterprise_vault_migrati.Upload.Processing.{process_unique}

abbrev pub is_replay : UploadResult → Bool
is_replay u = u.success && u.idempotent_replay

abbrev pub is_dry : UploadResult → Bool
is_dry u = u.dry_run

-- `b` accounts for `ds`: each document stands in one of the three lists, as often as in `ds`; there is
-- a result for each document and a target identifier for each uploaded one; replays are uploads; a
-- dry run uploads nothing and fails nothing, and another run has no dry-run result.
pub record Accounts (dry : Bool) (p : TransformedDocument → Bool) (ds : List TransformedDocument)
    (b : Batch) : Type 0 where
  pub sorted_out :
      count_if p b.uploaded_documents
        + count_if p b.failed_documents
        + count_if p b.skipped_documents
      ≡ count_if p ds
  pub a_result_each : length b.item_results ≡ length ds
  pub an_identifier_each : length b.uploaded_document_ids ≡ length b.uploaded_documents
  pub replays_are_uploads : count_if is_replay b.item_results ≤ length b.uploaded_documents
  pub modes_are_apart :
      (if dry
        then length b.uploaded_documents + length b.failed_documents
        else count_if is_dry b.item_results)
      ≡ 0

module _ {F : Type 0} (rt : Runtime F) (dry : Bool) (p : TransformedDocument → Bool) where
  emit_one-Accounts :
      (d : TransformedDocument) (u : UploadResult) (ds : List TransformedDocument) (b : Batch)
      → IsMade dry u
      → Accounts dry p ds b
      → Accounts dry p (d ∷ ds) (emit_one rt d u b)
  unfolding emit_one
  emit_one-Accounts d u ds b m h = ground (arith, m.0, m.1)

  emit_duplicate-Accounts :
      (d : TransformedDocument) (ds : List TransformedDocument) (b : Batch)
      → Accounts dry p ds b
      → Accounts dry p (d ∷ ds) (emit_duplicate rt d b)
  unfolding emit_duplicate build_item_result
  emit_duplicate-Accounts d ds b h = ground arith

  result_of-IsMade :
      (k : String) (results : Dict UploadResult)
      → All (λ (e : String × UploadResult). IsMade dry e.1) results
      → Returns (IsMade dry) (result_of rt k results)
  unfolding result_of
  result_of-IsMade k results h = elim (Option-cases (Dict.get k results)) [
    | inl missing ↦ rw (missing, Returns) tt
    | inr found ↦ rw (found.1, Returns) (get-All (IsMade dry) k results h found.1)
  ]

  emit-Accounts :
      (results : Dict UploadResult) (emitted : List String) (ds : List TransformedDocument)
      → All (λ (e : String × UploadResult). IsMade dry e.1) results
      → Returns (Accounts dry p ds) (emit rt results emitted ds)
  unfolding emit
  emit-Accounts results emitted [] m = ground arith
  emit-Accounts results emitted (d ∷ ds) m =
      elim (Bool-cases (text_in d.source_identifier emitted)) [
        | inl seen ↦
            rw (seen, Returns)
              (Returns-bind (Accounts dry p ds) (Accounts dry p (d ∷ ds))
                (emit rt results emitted ds) _ (emit-Accounts results emitted ds m)
                (λ b h. emit_duplicate-Accounts d ds b h))
        | inr new ↦
            rw (new, Returns)
              (Returns-bind (IsMade dry) (Accounts dry p (d ∷ ds))
                (result_of rt d.source_identifier results) _
                (result_of-IsMade d.source_identifier results m)
                (λ u made.
                  Returns-bind (Accounts dry p ds) (Accounts dry p (d ∷ ds))
                    (emit rt results (d.source_identifier ∷ emitted) ds) _
                    (emit-Accounts results (d.source_identifier ∷ emitted) ds m)
                    (λ b h. emit_one-Accounts d u ds b made h)))
      ]

results_by_identifier-All :
    (P : UploadResult → Type 0) (ds : List TransformedDocument) (us : List UploadResult)
    → All P us
    → All (λ (e : String × UploadResult). P e.1) (results_by_identifier ds us)
unfolding results_by_identifier
results_by_identifier-All P [] us h = tt
results_by_identifier-All P (d ∷ ds) [] h = tt
results_by_identifier-All P (d ∷ ds) (u ∷ us) h = (h.0, results_by_identifier-All P ds us h.1)

module _ {F S : Type 0} (rt : Runtime F) (port : TargetPort F S) (perform dry : Bool) where
  -- A batch that the upload step returns accounts for the documents that it was given, with any number
  -- of workers, in any order of their calls and whatever the target answers.
  pub run_batch-Accounts :
      (p : TransformedDocument → Bool) (workers : ℕ) (schedule ds : List TransformedDocument)
      (s : S)
      → Returns (Accounts dry p ds) (run_batch rt port perform dry workers schedule ds s).0
  unfolding run_batch
  run_batch-Accounts p workers schedule ds s =
      let unique = unique_documents [] ds in
      Returns-bind (All (IsMade dry)) (Accounts dry p ds)
        (process_unique rt port perform dry workers schedule unique s).0 _
        (process_unique-IsMade rt port perform dry workers schedule unique s)
        (λ us h.
          emit-Accounts rt dry p (results_by_identifier unique us) [] ds
            (results_by_identifier-All (IsMade dry) unique us h))
