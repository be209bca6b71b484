-- ===== src/Runner/Reconstruct.antt =====
-- Replaying the upload step by `reconstruct_upload` of src/migration_engine/steps/upload_items_step.py,
-- as `_build_resume_runtime` of src/migration_engine/runner/pipeline_runner.py does, over the target
-- as the world.
use enterprise_vault_migrati.Prelude.{
  ℕ, ◌≡◌, ◌≢◌, refl, ap, ◌∙◌, ◌⊎◌, String, none, some, List, All, [], ◌∷◌, Bool-cases, inl, inr,
  str_eq, str_eq_iff, arith,
}
use enterprise_vault_migrati.Runtime.{Runtime}
use enterprise_vault_migrati.Errors.{ok, err, Attempt, ◌>>=◌}
use enterprise_vault_migrati.StateMachine.{MigrationState, advance}
use enterprise_vault_migrati.Contracts.{ExecutionContext}
use enterprise_vault_migrati.Contracts.Documents.{TransformedDocument}
use enterprise_vault_migrati.Context.{StepContext, TargetPort}
use enterprise_vault_migrati.Upload.{reconstruct_upload}
use enterprise_vault_migrati.Upload.DryRun.{reconstruct_keeps_target}
use enterprise_vault_migrati.Runner.Steps.{Shared, Step, Yield, in_context, step_state}
use enterprise_vault_migrati.Runner.Loop.{Setup}
use enterprise_vault_migrati.Runner.Replay.{Replaying, replay_execute}
use enterprise_vault_migrati.Runner.Repeats.{Repeatable, again}

module _ {F S : Type 0} (rt : Runtime F) (port : TargetPort F S)
    (schedule : List TransformedDocument) where
  -- The state machine and the tracker that the context refers to are the shared ones.
  unfoldable pub shared_after : Shared F S → Attempt F (StepContext F) → S → Shared F S
  shared_after s (err e) w = record s { world = w }
  shared_after s (ok c) w = record {
    machine = advance s.machine MigrationState.uploading;
    tracker = elim s.tracker [ none ↦ none | some t ↦ c.progress_tracker ];
    world = w;
  }

  -- `step.reconstruct_upload(context)`
  unfoldable pub reconstruct_by : StepContext F → Shared F S → Attempt F (Yield F) × Shared F S
  unfolding shared_after
  reconstruct_by c s =
      let (o, w) = reconstruct_upload rt port schedule c s.world in
      ((o >>= λ c'. ok (in_context c')), shared_after s o w)

  shared_after-keeps :
      (s : Shared F S) (o : Attempt F (StepContext F)) (w : S)
      → ((shared_after s o w).world ≡ w)
        × (((shared_after s o w).machine ≡ s.machine)
            ⊎ ((shared_after s o w).machine ≡ advance s.machine MigrationState.uploading))
  unfolding shared_after
  shared_after-keeps s (err e) w = (refl, inl refl)
  shared_after-keeps s (ok c) w = (refl, inr refl)

  -- Reconstruction is repeatable whatever the target holds.
  reconstruct_by-Repeatable :
      (step : Step F S)
      → step.name ≡ "UploadItemsStep"
      → ((c : ExecutionContext F) (s : Shared F S)
          → ((step.finalize c s).1.machine ≡ s.machine) × ((step.finalize c s).1.world ≡ s.world))
      → Repeatable step reconstruct_by
  unfolding reconstruct_by step_state
  reconstruct_by-Repeatable step name quiet = record {
    world_kept = λ c s.
        (shared_after-keeps s (reconstruct_upload rt port schedule c s.world).0 _).0
        ∙ reconstruct_keeps_target rt port schedule c s.world;
    machine_moved = λ c s.
        elim (shared_after-keeps s (reconstruct_upload rt port schedule c s.world).0
          (reconstruct_upload rt port schedule c s.world).1).1 [
            | inl same ↦ inl same
            | inr moved ↦ inr (MigrationState.uploading, ap step_state name ∙ refl, moved)
          ];
    finalize_keeps = quiet;
  }

module _ {F S : Type 0} where
  -- A step with harmless hooks; one that is not the upload step is repeatable as it is executed.
  pub record IsReplayable (step : Step F S) : Type 0 where
    pub quiet :
        (c : ExecutionContext F) (s : Shared F S)
        → ((step.finalize c s).1.machine ≡ s.machine) × ((step.finalize c s).1.world ≡ s.world)
    pub repeatable : step.name ≢ "UploadItemsStep" → Repeatable step step.execute

module _ {F S : Type 0} (rt : Runtime F) (port : TargetPort F S)
    (schedule : List TransformedDocument) (entered_at left_at : String → ℕ) where
  -- Replaying with the reconstruction of the upload from the target.
  abbrev pub from_target : Replaying F S
  from_target = record {
    reconstruct = reconstruct_by rt port schedule;
    entered_at = entered_at;
    left_at = left_at;
  }

module _ {F S : Type 0} (rt : Runtime F) (setup : Setup F S) (port : TargetPort F S)
    (schedule : List TransformedDocument) (entered_at left_at : String → ℕ) (started : ℕ) where
  abbrev Replayed : Replaying F S
  Replayed = from_target rt port schedule entered_at left_at

  IsReplayable-Repeatable :
      (step : Step F S) → IsReplayable step → Repeatable step (again rt setup Replayed started step)
  unfolding replay_execute
  IsReplayable-Repeatable step h = elim (Bool-cases (str_eq step.name "UploadItemsStep")) [
    | inl upload ↦
        let name = (str_eq_iff step.name "UploadItemsStep").0 upload in
        rw (replay_execute, upload) (reconstruct_by-Repeatable rt port schedule step name h.quiet)
    | inr other ↦
        rw (replay_execute, other)
          (h.repeatable (λ name.
            absurd (ground (arith, other, (str_eq_iff step.name "UploadItemsStep").1 name))))
  ]

  pub replayed-Repeatable :
      (steps : List (Step F S))
      → All IsReplayable steps
      → All (λ step. Repeatable step (again rt setup Replayed started step)) steps
  replayed-Repeatable [] h = tt
  replayed-Repeatable (step ∷ steps) h =
      (IsReplayable-Repeatable step h.0, replayed-Repeatable steps h.1)
