-- ===== src/Upload.antt =====
-- src/migration_engine/steps/upload_items_step.py over a target port. The worker pool's calls take
-- effect one after the other, in an order that the environment chooses: `schedule` lists the calls
-- that are made, in that order. Its children hold the parts of the
-- step and the proofs.
pub mod Metrics
pub mod Emission
pub mod Processing
pub mod Finishing
pub mod Outcomes
pub mod Partition
pub mod DryRun
pub mod Totals
pub mod Unique
use mathlib.Core.Option
use enterprise_vault_migrati.Prelude.{
  ℕ, Bool, true, false, Option, none, some, List, [], if◌then◌else◌,
}
use enterprise_vault_migrati.Runtime.{Runtime}
use enterprise_vault_migrati.Errors.{ok, err, value_error, Attempt, plain, ◌>>=◌}
use enterprise_vault_migrati.Contracts.Documents.{TransformedDocument, TransformationResult}
use enterprise_vault_migrati.Context.{StepContext, TargetPort}
use Emission.{unique_documents, results_by_identifier, Batch, emit}
use Processing.{process_unique}
use Finishing.{finish_upload}

module _ {F S : Type 0} (rt : Runtime F) (port : TargetPort F S) (perform dry_run_mode : Bool) where
  -- the part of `_run_upload` that talks to the target and builds the batch
  unfoldable pub run_batch :
      ℕ → List TransformedDocument → List TransformedDocument → S → Attempt F Batch × S
  unfolding process_unique results_by_identifier unique_documents emit
  run_batch worker_count schedule documents s =
      let unique = unique_documents [] documents in
      let (results, s') =
        process_unique rt port perform dry_run_mode worker_count schedule unique s in
      ((results >>= λ us. emit rt (results_by_identifier unique us) [] documents), s')

module _ {F S : Type 0} (rt : Runtime F) (port : TargetPort F S) where
  finished_batch :
      Bool
      → StepContext F
      → List TransformedDocument
      → Attempt F Batch × S
      → Attempt F (StepContext F) × S
  finished_batch perform c documents (err e, s) = (err e, s)
  finished_batch perform c documents (ok b, s) = (
    ok (finish_upload rt c documents b),
    (if perform then port.finalize_job c.execution_context.migration_id s else s),
  )

  -- the body of `_run_upload`, by what the transformation left
  unfoldable pub run_transformed :
      Bool
      → List TransformedDocument
      → StepContext F
      → S
      → Option TransformationResult
      → Attempt F (StepContext F) × S
  unfolding finished_batch
  run_transformed perform schedule c s none =
      (err (plain value_error "Upload requires transformation results"), s)
  run_transformed perform schedule c s (some t) = finished_batch perform c t.transformed_documents (
      run_batch rt port perform c.execution_context.configuration.dry_run
        c.execution_context.configuration.upload_worker_count schedule t.transformed_documents s)

  -- _run_upload
  unfoldable pub run_upload :
      Bool → List TransformedDocument → StepContext F → S → Attempt F (StepContext F) × S
  unfolding run_transformed
  run_upload perform schedule c s = run_transformed perform schedule c s c.transformation_result

  -- upload and reconstruct_upload
  unfoldable pub upload :
      List TransformedDocument → StepContext F → S → Attempt F (StepContext F) × S
  upload = run_upload true

  unfoldable pub reconstruct_upload :
      List TransformedDocument → StepContext F → S → Attempt F (StepContext F) × S
  reconstruct_upload = run_upload false
