-- ===== src/Runner/Restore.antt =====
-- What a checkpoint keeps of a run, and where a resumed run goes on.
use enterprise_vault_migrati.Prelude.{
  ℕ, suc, ◌≡◌, subst, refl, String, Bool, true, false, Option, none, some, List, ◌∷◌, ◌++◌, ◌||◌,
  leb, length, length-append, take, drop, arith, ap, sym, or_else,
}
use enterprise_vault_migrati.Runtime.{Runtime, elapsed, items_per_second}
use enterprise_vault_migrati.Errors.{ok}
use enterprise_vault_migrati.StateMachine.{StateMachine, parse_state}
use enterprise_vault_migrati.StateMachine.Terminal.{state_value-parse}
use enterprise_vault_migrati.Contracts.{Metrics, metrics_defaults}
use enterprise_vault_migrati.Context.{StepContext, known_metrics}
use enterprise_vault_migrati.Runner.Registry.{resolve, index_of}
use enterprise_vault_migrati.Runner.Ordering.{CutAt, index_of-CutAt}
use enterprise_vault_migrati.Runner.Checkpoints.{
  build_checkpoint_snapshot, build_checkpoint_metrics, resolve_resume_configuration,
  resolve_resume_index, resume_after,
}

-- The metrics `n` that a checkpoint of a run with the metrics `m` restores: nine counts are those of
-- `m`, the total is the number of processed items, the times are the given ones, and all other counts
-- start again from 0.
abbrev pub Restored : {F : Type 0} → Runtime F → ℕ → ℕ → Metrics F → Metrics F → Type 0
Restored rt started finished m n =
    let duration = elapsed rt started finished in
    let fresh =
      metrics_defaults rt duration (items_per_second rt m.processed_items duration) 0 0 none none in
    n ≡ record fresh {
      processed_items = m.processed_items;
      successful_items = m.successful_items;
      failed_items = m.failed_items;
      skipped_items = m.skipped_items;
      filtered_archives = m.filtered_archives;
      filtered_items = m.filtered_items;
      uploaded_items = m.uploaded_items;
      verification_failures = m.verification_failures;
      dry_run_items = m.dry_run_items;
      total_items = m.processed_items;
      started_at = some started;
      finished_at = some finished;
    }

or_else-some : {A : Type 0} (o : Option A) (d m : A) → o ≡ some m → or_else o d ≡ m
or_else-some none d m p = absurd cc
or_else-some (some x) d m p = cc

or_false : (b : Bool) → (b || false) ≡ b
or_false true = refl
or_false false = refl

module _ {F : Type 0} (rt : Runtime F) (machine : StateMachine) (c : StepContext F) where
  Restored-metrics :
      (m : Metrics F) (started finished : ℕ)
      → known_metrics c ≡ some m
      → Restored rt started finished m
          (build_checkpoint_metrics rt (build_checkpoint_snapshot rt machine c) started finished)
  unfolding build_checkpoint_metrics build_checkpoint_snapshot metrics_defaults
  Restored-metrics m started finished p = rw p refl

  restored_configuration :
      resolve_resume_configuration none (build_checkpoint_snapshot rt machine c)
      ≡ c.execution_context.configuration
  unfolding build_checkpoint_snapshot resolve_resume_configuration
  restored_configuration =
      ap (λ b. record c.execution_context.configuration { dry_run = b })
        (or_false c.execution_context.configuration.dry_run)

  -- The checkpoint of a run with the metrics `m` restores nine counts of `m`: the processed,
  -- successful, failed, skipped, uploaded and dry-run items, the filtered archives and items and the
  -- verification failures. The total becomes the number of processed items, and every other count,
  -- those of retries and throttling among them, is 0. Where the resumed runner has no initial
  -- context, the configuration is that of the run; the checkpoint's state parses to that of the run.
  pub checkpoint_restores :
      (m : Metrics F) (started finished : ℕ)
      → known_metrics c ≡ some m
      → let k = build_checkpoint_snapshot rt machine c in
        Restored rt started finished m (build_checkpoint_metrics rt k started finished)
        × (resolve_resume_configuration none k ≡ c.execution_context.configuration)
        × (parse_state k.current_state
            ≡ some (or_else c.execution_context.state machine.current_state))
  unfolding build_checkpoint_snapshot
  checkpoint_restores m started finished p =
      (Restored-metrics m started finished p, restored_configuration, state_value-parse _)

below :
    {A : Type 0} (i : ℕ) (x : A) (xs ys : List A)
    → length xs ≡ i
    → leb (length (xs ++ x ∷ ys)) i ≡ false
below i x xs ys h = ground (arith, length-append xs (x ∷ ys))

module _ {F : Type 0} (rt : Runtime F) where
  resume_after-some :
      (name : String) (count i : ℕ)
      → leb count i ≡ false
      → resume_after rt name count (some i) ≡ ok (suc i)
  unfolding resume_after
  resume_after-some name count i h = rw h refl

  -- A run whose checkpoint names a registered step goes on right behind the first step of that name:
  -- the check that the checkpoint is already final never fires.
  pub resume_index :
      (steps : List String) (name : String) (i : ℕ)
      → index_of name steps ≡ some i
      → (resolve_resume_index rt steps (some name) ≡ ok (suc i)) × CutAt name i (resolve steps)
  unfolding resolve_resume_index
  resume_index steps name i h =
      let c = index_of-CutAt name steps i h in
      (
        rw h (
            resume_after-some name (length (resolve steps)) i (
              subst (λ xs. leb (length xs) i ≡ false) (sym c.cut)
                (below i name (take i (resolve steps)) (drop (suc i) (resolve steps)) c.counted))),
        c,
      )
