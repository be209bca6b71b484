-- ===== src/Runner/Loop.antt =====
-- `run` of src/migration_engine/runner/pipeline_runner.py from its loop over the steps on: the body of
-- an attempt, the loop, and the result of a run that has failed or completed.
use mathlib.Core.Option
use enterprise_vault_migrati.Prelude.{
  ℕ, suc, ◌+◌, String, Bool, Option, none, some, List, [], ◌∷◌, ◌++◌, max,
}
use enterprise_vault_migrati.Runtime.{Runtime}
use enterprise_vault_migrati.Errors.{ok, err, Exception, Attempt}
use enterprise_vault_migrati.StateMachine.{advance}
use enterprise_vault_migrati.Contracts.{Configuration, Metrics, ExecutionReport, ExecutionContext}
use enterprise_vault_migrati.Checkpoint.{CheckpointSnapshot}
use enterprise_vault_migrati.Context.{StepContext}
use enterprise_vault_migrati.Retry.{RetryPolicy, RetryDecision, RetryRecord}
use enterprise_vault_migrati.Runner.Checkpoints.{resolve_metrics, build_checkpoint_snapshot}
use enterprise_vault_migrati.Runner.Retries.{
  Trace, Ending, finished, gave_up, escaped, attempt_loop, merge_retry_metrics,
}
use enterprise_vault_migrati.Runner.Steps.{
  step_state, Live, Yield, Step, advance_context, sync_tracker, sync_retry_state, yielded_report,
  yielded_metrics, yielded_context, kept,
}

-- The runner's collaborators, what a run starts with, and the clock by the step and the attempt that it is read for.
pub record Setup (F S : Type 0) : Type 0 where
  pub migration_id : String
  pub configuration : Configuration F
  pub errors : List String
  pub started_at : ℕ
  pub policy : Option (RetryPolicy F)
  pub classifier : Option (Exception F → Bool)
  pub save_retry : Option (RetryRecord → S → Attempt F (Unit {0}) × S)
  pub sleeper : Option (F → S → Attempt F (Unit {0}) × S)
  pub save : Option (CheckpointSnapshot F → S → Attempt F (Unit {0}) × S)
  pub attempted_at : String → ℕ → ℕ
  pub succeeded_at : String → ℕ → ℕ
  pub retried_at : String → ℕ → ℕ
  pub ended_at : ℕ

-- The end of the loop over the steps. A failure keeps the completed steps, the failed one, the
-- context that it started from, the exception, the decision on it and the attempt.
pub data Outcome (F S : Type 0) : Type 0 where
  all_done : Live F S → Trace F → Outcome F S
  step_failed :
      List (Step F S)
      → Step F S
      → StepContext F
      → Exception F
      → Option (RetryDecision F)
      → ℕ
      → Live F S
      → Trace F
      → Outcome F S
  raised : Exception F → Outcome F S
  out_of_fuel : Outcome F S

-- as many attempts as the policy allows, and one more
unfoldable pub attempts_fuel : {F : Type 0} → Option (RetryPolicy F) → ℕ
attempts_fuel none = 2
attempts_fuel (some p) = suc (max 1 p.max_attempts)

-- a call of a collaborator, which changes the world only
unfoldable pub in_world :
    {F S X : Type 0}
    → (X → S → Attempt F (Unit {0}) × S)
    → X
    → Live F S
    → Attempt F (Unit {0}) × Live F S
in_world f x l =
    let (o, w) = f x l.shared.world in (o, record l { shared = record l.shared { world = w } })

module _ {F S : Type 0} (rt : Runtime F) (setup : Setup F S) where
  -- what an attempt gives to the loop over the attempts
  abbrev Attempted : Type 0
  Attempted = (Option (Metrics F) × Attempt F (ExecutionReport F)) × Live F S

  -- _save_checkpoint, the last action of an attempt
  unfoldable pub save_checkpoint : Option (Metrics F) → ExecutionReport F → Live F S → Attempted
  save_checkpoint m r l = elim setup.save [
    | none ↦ ((m, ok r), l)
    | some save ↦
        let k = build_checkpoint_snapshot rt l.shared.machine l.context in
        let (o, w) = save k l.shared.world in
        let l' = record l { shared = record l.shared { world = w } } in
        elim o [
          | err e ↦ ((m, err e), l')
          | ok _ ↦ ((m, ok r), record l' { context = record l.context { checkpoint = some k } })
        ]
  ]

  -- from the finalize hook of the step on; `latest` are the merged metrics
  unfoldable pub after_finalize :
      ℕ
      → Option (Metrics F)
      → Option (Metrics F)
      → ExecutionReport F
      → ExecutionContext F
      → Attempt F (Unit {0})
      → Live F S
      → Attempted
  unfolding save_checkpoint
  after_finalize timestamp m latest r c (err e) l = ((m, err e), l)
  after_finalize timestamp m latest r c (ok _) l =
      let metrics = resolve_metrics rt latest setup.started_at timestamp in
      let s = sync_tracker c timestamp metrics r l.shared in
      save_checkpoint m r (record {
        shared = s;
        context = kept l.context c s (some r);
        attempt_context = l.attempt_context;
        successful_steps = l.successful_steps + r.successful_steps;
        failed_steps = l.failed_steps + r.failed_steps;
        skipped_steps = l.skipped_steps + r.skipped_steps;
      })

  unfoldable pub after_report :
      Step F S
      → ℕ
      → Option (Metrics F)
      → Option (Metrics F)
      → Attempt F (ExecutionReport F)
      → Live F S
      → Attempted
  unfolding after_finalize
  after_report step n m latest (err e) l = ((none, err e), l)
  after_report step n m latest (ok r) l =
      let timestamp = setup.succeeded_at step.name n in
      let c =
        advance_context l.context.execution_context (some step.name) l.shared.machine.current_state
          timestamp latest in
      let (o, s) = step.finalize c l.shared in
      after_finalize timestamp m latest r c o (record l { shared = s })

  unfoldable pub after_execute : Step F S → ℕ → Trace F → Attempt F (Yield F) → Live F S → Attempted
  unfolding after_report
  after_execute step n t (err e) l = ((none, err e), l)
  after_execute step n t (ok y) l =
      let m = yielded_metrics y in
      after_report step n m (merge_retry_metrics rt m t.latest_metrics) (yielded_report step.name y)
        (record l { context = yielded_context y l.context })

  -- an attempt after the first follows a retry, whose tracker updates come before it
  unfoldable pub before_attempt : Step F S → ℕ → Trace F → Live F S → Live F S
  unfolding sync_retry_state
  before_attempt step (suc (suc n)) t l = record l {
    shared =
        sync_retry_state l.attempt_context (setup.retried_at step.name (suc n)) t.latest_metrics
          l.shared;
  }
  before_attempt step n t l = l

  -- one attempt of a step, from the context `start` that the step before has left
  unfoldable pub attempt_step : Step F S → StepContext F → ℕ → Trace F → Live F S → Attempted
  unfolding before_attempt after_execute
  attempt_step step start n t l =
      let ready = (before_attempt step n t l).shared in
      let e =
        advance_context start.execution_context (some step.name) ready.machine.current_state
          (setup.attempted_at step.name n) t.latest_metrics in
      let c = kept start e ready start.execution_report in
      let (o, s) = step.execute c ready in
      after_execute step n t o (record l { shared = s; context = c; attempt_context = e })

  -- the state of a step is entered where that is allowed
  unfoldable pub enter_step : Step F S → Live F S → Live F S
  enter_step step l = elim (step_state step.name) [
    | none ↦ l
    | some st ↦ record l { shared = record l.shared { machine = advance l.shared.machine st } }
  ]

  unfoldable pub after_step :
      Step F S
      → StepContext F
      → List (Step F S)
      → Option (Ending F (ExecutionReport F))
      → Live F S
      → Trace F
      → Outcome F S
      → Outcome F S
  after_step step start completed none l t further = out_of_fuel
  after_step step start completed (some (finished r n)) l t further = further
  after_step step start completed (some (gave_up e d n)) l t further =
      step_failed completed step start e d n l t
  after_step step start completed (some (escaped e)) l t further = raised e

  -- the attempts of one step
  unfoldable pub run_step :
      Step F S → Live F S → Trace F → Option (Ending F (ExecutionReport F)) × (Live F S × Trace F)
  unfolding attempt_step attempts_fuel in_world
  run_step step l t =
      attempt_loop rt setup.policy setup.classifier (Option.map in_world setup.save_retry)
        (Option.map in_world setup.sleeper) setup.migration_id step.name setup.started_at
        (setup.retried_at step.name) (attempt_step step l.context) (attempts_fuel setup.policy) 1 l
        t

  -- `for step in self.steps[start_index:]`
  unfoldable pub run_steps : List (Step F S) → List (Step F S) → Live F S → Trace F → Outcome F S
  unfolding enter_step run_step after_step
  run_steps [] completed l t = all_done l t
  run_steps (step ∷ steps) completed l t =
      let entered = enter_step step l in
      let (end, (l', t')) = run_step step entered t in
      after_step step entered.context completed end l' t'
        (run_steps steps (completed ++ step ∷ []) l' t')
