-- ===== src/Upload/Totals.antt =====
-- The metrics that the upload step reports add up.
use enterprise_vault_migrati.Prelude.{
  Some, sym, subst, ℕ, ◌+◌, ◌≤◌, ◌≡◌, Bool, true, Option, some, List, length, count_if-true, arith,
  if◌then◌else◌,
}
use enterprise_vault_migrati.Runtime.{Runtime}
use enterprise_vault_migrati.Errors.{ok, err, Attempt, Returns}
use enterprise_vault_migrati.Contracts.{Metrics, Configuration}
use enterprise_vault_migrati.Contracts.Documents.{
  TransformedDocument, TransformationResult, UploadBatchResult,
}
use enterprise_vault_migrati.Context.{StepContext, TargetPort}
use enterprise_vault_migrati.Upload.Metrics.{resolve_metrics, dry_run_count, replay_count}
use enterprise_vault_migrati.Upload.Partition.{Accounts, run_batch-Accounts}
use enterprise_vault_migrati.Upload.{finished_batch, run_transformed, run_upload}
use enterprise_vault_migrati.Upload.Emission.{Batch}
use enterprise_vault_migrati.Upload.Finishing.{batch_result, finish_upload}

-- The metrics `m` of a batch of `n` documents add up: all of them are counted and each is successful,
-- failed or skipped; a successful one was uploaded or is a replay. In a dry run none is successful,
-- failed or uploaded, and another run has no dry-run items.
pub record AddsUp (dry : Bool) (n : ℕ) {F : Type 0} (m : Metrics F) : Type 0 where
  pub counts_all : (m.total_items ≡ n) × (m.processed_items ≡ n)
  pub splits : m.successful_items + m.failed_items + m.skipped_items ≡ n
  pub uploads : m.uploaded_items + m.idempotent_replays ≡ m.successful_items
  pub modes_are_apart :
      (if dry then m.successful_items + m.failed_items + m.uploaded_items else m.dry_run_items) ≡ 0

module _ {F : Type 0} (rt : Runtime F) where
  resolve_metrics-AddsUp :
      (known : Option (Metrics F)) (u : UploadBatchResult) (c : Configuration F) (from upto n : ℕ)
      (dry : Bool)
      → length u.item_results ≡ n
      → length u.uploaded_documents + length u.failed_documents + length u.skipped_documents ≡ n
      → replay_count u ≤ length u.uploaded_documents
      → (if dry then length u.uploaded_documents + length u.failed_documents else dry_run_count u)
        ≡ 0
      → AddsUp dry n (resolve_metrics rt known u c from upto)
  unfolding resolve_metrics
  resolve_metrics-AddsUp known u c from upto n dry each sorted replays apart = ground arith

module _ {F S : Type 0} (rt : Runtime F) (port : TargetPort F S) where
  abbrev pub Reported : Bool → List TransformedDocument → StepContext F → Type 0
  Reported dry ds c = Some (AddsUp dry (length ds)) c.execution_context.metrics

  finish_upload-Reported :
      (dry : Bool) (c : StepContext F) (ds : List TransformedDocument) (b : Batch)
      → Accounts dry (λ d. true) ds b
      → Reported dry ds (finish_upload rt c ds b)
  unfolding finish_upload batch_result dry_run_count replay_count
  finish_upload-Reported dry c ds b a =
      resolve_metrics-AddsUp rt _ (batch_result rt c b) _ _ _ (length ds) dry a.a_result_each
        (omega (
          arith,
          a.sorted_out,
          count_if-true b.uploaded_documents,
          count_if-true b.failed_documents,
          count_if-true b.skipped_documents,
          count_if-true ds,
        ))
        a.replays_are_uploads a.modes_are_apart

  finished_batch-Reported :
      (perform dry : Bool) (c : StepContext F) (ds : List TransformedDocument)
      (r : Attempt F Batch × S)
      → Returns (Accounts dry (λ d. true) ds) r.0
      → Returns (Reported dry ds) (finished_batch rt port perform c ds r).0
  unfolding finished_batch
  finished_batch-Reported perform dry c ds (ok b, s) a = finish_upload-Reported dry c ds b a
  finished_batch-Reported perform dry c ds (err e, s) a = tt

  -- The metrics that the upload step or its reconstruction reports for the documents of `t` add up,
  -- where it returns a context.
  pub upload_adds_up :
      (perform : Bool) (schedule : List TransformedDocument) (c : StepContext F) (s : S)
      (t : TransformationResult)
      → c.transformation_result ≡ some t
      → Returns
          (Reported c.execution_context.configuration.dry_run t.transformed_documents)
          (run_upload rt port perform schedule c s).0
  unfolding run_upload run_transformed
  upload_adds_up perform schedule c s t found =
      subst
        (λ o.
          Returns (Reported c.execution_context.configuration.dry_run t.transformed_documents)
            (run_transformed rt port perform schedule c s o).0)
        (sym found)
        (finished_batch-Reported perform _ c t.transformed_documents _
          (run_batch-Accounts rt port perform _ (λ d. true) _ schedule t.transformed_documents s))
