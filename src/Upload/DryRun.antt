-- ===== src/Upload/DryRun.antt =====
-- Which runs of the upload step leave the target as it is.
use enterprise_vault_migrati.Prelude.{
  ◌⊎◌, ℕ, ◌≡◌, refl, Bool, true, false, Option, none, some, List, [], ◌∷◌, ◌&&◌, arith, length, ltb,
  Bool-cases, inl, inr, ap, ◌∙◌,
}
use enterprise_vault_migrati.Runtime.{Runtime}
use enterprise_vault_migrati.Errors.{ok, err, Attempt}
use enterprise_vault_migrati.Contracts.Documents.{
  TransformedDocument, TransformationResult, UploadResult,
}
use enterprise_vault_migrati.Context.{StepContext, TargetPort}
use enterprise_vault_migrati.Upload.{
  run_batch, finished_batch, run_transformed, run_upload, upload, reconstruct_upload,
}
use enterprise_vault_migrati.Upload.Emission.{Batch, unique_documents}
use enterprise_vault_migrati.Upload.Processing.{
  process_transformed_document, consed, process_all, run_schedule, process_pooled, process_unique,
}

module _ {F S : Type 0} (rt : Runtime F) (port : TargetPort F S) (perform dry : Bool)
    (quiet : (dry ≡ true) ⊎ (perform ≡ false)) where
  process_quiet :
      (d : TransformedDocument) (s : S)
      → (process_transformed_document rt port perform dry d s).1 ≡ s
  unfolding process_transformed_document
  process_quiet d s = ground arith

  consed_quiet :
      (one : Attempt F UploadResult) (s t : S) (rest : Attempt F (List UploadResult) × S)
      → s ≡ t
      → rest.1 ≡ t
      → (consed rt port perform dry one s rest).1 ≡ t
  unfolding consed
  consed_quiet (ok u) s t rest p q = q
  consed_quiet (err e) s t rest p q = p

  process_all_quiet :
      (ds : List TransformedDocument) (s : S) → (process_all rt port perform dry ds s).1 ≡ s
  unfolding process_all
  process_all_quiet [] s = refl
  process_all_quiet (d ∷ ds) s =
      let (one, s') = process_transformed_document rt port perform dry d s in
      consed_quiet one s' s (process_all rt port perform dry ds s') (process_quiet d s)
        (process_all_quiet ds s' ∙ process_quiet d s)

  run_schedule_quiet :
      (ds : List TransformedDocument) (s : S) → (run_schedule rt port perform dry ds s).1 ≡ s
  unfolding run_schedule
  run_schedule_quiet [] s = refl
  run_schedule_quiet (d ∷ ds) s = run_schedule_quiet ds _ ∙ process_quiet d s

  pub run_batch_quiet :
      (workers : ℕ) (schedule ds : List TransformedDocument) (s : S)
      → (run_batch rt port perform dry workers schedule ds s).1 ≡ s
  unfolding run_batch process_unique process_pooled
  run_batch_quiet workers schedule ds s =
      let unique = unique_documents [] ds in
      elim (Bool-cases (ltb 1 (length unique) && ltb 1 workers)) [
        | inl y ↦ rw y (run_schedule_quiet schedule s)
        | inr n ↦ rw n (process_all_quiet unique s)
      ]

module _ {F S : Type 0} (rt : Runtime F) (port : TargetPort F S) where
  finished_perform :
      (c : StepContext F) (ds : List TransformedDocument) (r : Attempt F Batch × S) (s : S)
      → r.1 ≡ s
      → ((finished_batch rt port true c ds r).1 ≡ s)
        ⊎ ((finished_batch rt port true c ds r).1
            ≡ port.finalize_job c.execution_context.migration_id s)
  unfolding finished_batch
  finished_perform c ds (err e, t) s p = inl p
  finished_perform c ds (ok b, t) s p =
      inr (ap (port.finalize_job c.execution_context.migration_id) p)

  finished_reconstruct :
      (c : StepContext F) (ds : List TransformedDocument) (r : Attempt F Batch × S) (s : S)
      → r.1 ≡ s
      → (finished_batch rt port false c ds r).1 ≡ s
  unfolding finished_batch
  finished_reconstruct c ds (err e, t) s p = p
  finished_reconstruct c ds (ok b, t) s p = p

  run_transformed_perform :
      (schedule : List TransformedDocument) (c : StepContext F) (s : S)
      (t : Option TransformationResult)
      → c.execution_context.configuration.dry_run ≡ true
      → ((run_transformed rt port true schedule c s t).1 ≡ s)
        ⊎ ((run_transformed rt port true schedule c s t).1
            ≡ port.finalize_job c.execution_context.migration_id s)
  unfolding run_transformed
  run_transformed_perform schedule c s none dry = inl refl
  run_transformed_perform schedule c s (some t) dry =
      finished_perform c t.transformed_documents _ s
        (run_batch_quiet rt port true _ (inl dry) _ schedule _ s)

  run_transformed_reconstruct :
      (schedule : List TransformedDocument) (c : StepContext F) (s : S)
      (t : Option TransformationResult)
      → (run_transformed rt port false schedule c s t).1 ≡ s
  unfolding run_transformed
  run_transformed_reconstruct schedule c s none = refl
  run_transformed_reconstruct schedule c s (some t) =
      finished_reconstruct c t.transformed_documents _ s
        (run_batch_quiet rt port false _ (inr refl) _ schedule _ s)

  -- An upload in dry-run mode leaves the target as it is, or as `finalize_job` of the port leaves that,
  -- whatever the target answers and whatever the schedule.
  pub dry_run_keeps_target :
      (schedule : List TransformedDocument) (c : StepContext F) (s : S)
      → c.execution_context.configuration.dry_run ≡ true
      → ((upload rt port schedule c s).1 ≡ s)
        ⊎ ((upload rt port schedule c s).1 ≡ port.finalize_job c.execution_context.migration_id s)
  unfolding upload run_upload
  dry_run_keeps_target schedule c s = run_transformed_perform schedule c s c.transformation_result

  -- Reconstructing the upload result after a resume changes nothing in the target.
  pub reconstruct_keeps_target :
      (schedule : List TransformedDocument) (c : StepContext F) (s : S)
      → (reconstruct_upload rt port schedule c s).1 ≡ s
  unfolding reconstruct_upload run_upload
  reconstruct_keeps_target schedule c s =
      run_transformed_reconstruct schedule c s c.transformation_result
