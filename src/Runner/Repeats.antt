-- ===== src/Runner/Repeats.antt =====
-- What replaying steps keeps, and what it can raise.
use enterprise_vault_migrati.Prelude.{
  ℕ, ◌≡◌, refl, sym, ap, ◌∙◌, ◌⊎◌, Option, none, some, List, [], ◌∷◌, map, All, Any, Option-cases,
  inl, inr,
}
use enterprise_vault_migrati.Runtime.{Runtime}
use enterprise_vault_migrati.Errors.{err, Attempt, Exception}
use enterprise_vault_migrati.StateMachine.{MigrationState, StateMachine, advance}
use enterprise_vault_migrati.Contracts.{Metrics, ExecutionContext, ExecutionReport}
use enterprise_vault_migrati.Context.{StepContext}
use enterprise_vault_migrati.Runner.Checkpoints.{resolve_metrics}
use enterprise_vault_migrati.Runner.Retries.{merge_retry_metrics}
use enterprise_vault_migrati.Runner.Steps.{
  yielded_metrics, yielded_context, step_state, Shared, Live, Yield, Step, sync_tracker,
  yielded_report, advance_context, kept,
}
use enterprise_vault_migrati.Runner.Loop.{Setup, enter_step}
use enterprise_vault_migrati.Runner.Ready.{moved, advance-moved}
use enterprise_vault_migrati.Runner.Replay.{
  Replaying, replay_execute, replay_left, replay_step, replay_steps,
}
use enterprise_vault_migrati.Errors.{Answers, Answers-bind, Answers-map, Answers-then}
use enterprise_vault_migrati.Runner.States.{after_step_state, state_after, moved-same}

module _ {F S : Type 0} where
  sync_tracker-keeps :
      (c : ExecutionContext F) (timestamp : ℕ) (m : Metrics F) (r : ExecutionReport F)
      (s : Shared F S)
      → ((sync_tracker c timestamp m r s).machine ≡ s.machine)
        × ((sync_tracker c timestamp m r s).world ≡ s.world)
  unfolding sync_tracker
  sync_tracker-keeps c timestamp m r s = elim (Option-cases s.tracker) [
    | inl e ↦ rw e (refl, refl)
    | inr (t, e) ↦ rw e (refl, refl)
  ]

  -- Replaying the step by `again` leaves the world as it is and moves the machine to the step's own
  -- state at most, and the step's finalize hook changes neither.
  pub record Repeatable (step : Step F S)
      (again : StepContext F → Shared F S → Attempt F (Yield F) × Shared F S) : Type 0 where
    pub world_kept : (c : StepContext F) (s : Shared F S) → (again c s).1.world ≡ s.world
    pub machine_moved :
        (c : StepContext F) (s : Shared F S)
        → ((again c s).1.machine ≡ s.machine)
          ⊎ ((st : MigrationState) × (step_state step.name ≡ some st)
              × ((again c s).1.machine ≡ advance s.machine st))
    pub finalize_keeps :
        (c : ExecutionContext F) (s : Shared F S)
        → ((step.finalize c s).1.machine ≡ s.machine) × ((step.finalize c s).1.world ≡ s.world)

  -- An exception that replaying the step raises, also for want of a report, or its finalize hook.
  abbrev pub Fails :
      Step F S
      → (StepContext F → Shared F S → Attempt F (Yield F) × Shared F S)
      → Exception F
      → Type 0
  Fails step again e =
      ((c : StepContext F) × (s : Shared F S) × ((again c s).0 ≡ err e))
      ⊎ ((y : Yield F) × (yielded_report step.name y ≡ err e))
      ⊎ ((c : ExecutionContext F) × (s : Shared F S) × ((step.finalize c s).0 ≡ err e))

module _ {F S : Type 0} where
  abbrev pub ReachedAt : S → MigrationState → Live F S × Option (Metrics F) → Type 0
  ReachedAt world st x = (x.0.shared.world ≡ world) × (x.0.shared.machine.current_state ≡ st)

module _ {F S : Type 0} (rt : Runtime F) (setup : Setup F S) (replaying : Replaying F S)
    (started : ℕ) where
  abbrev pub again : Step F S → StepContext F → Shared F S → Attempt F (Yield F) × Shared F S
  again step = replay_execute rt setup replaying started step

  replay_left-Answers :
      (step : Step F S)
      → Repeatable step (again step)
      → (m : Option (Metrics F)) (r : ExecutionReport F) (c : StepContext F) (l : Live F S)
      → Answers
          (ReachedAt l.shared.world l.shared.machine.current_state)
          (Fails step (again step))
          (replay_left rt setup replaying started step m r c l)
  unfolding replay_left
  replay_left-Answers step h m r c l =
      let timestamp = replaying.left_at step.name in
      let e =
        advance_context c.execution_context (some step.name) l.shared.machine.current_state
          timestamp m in
      let metrics = resolve_metrics rt m started timestamp in
      let s = sync_tracker e timestamp metrics r l.shared in
      let t = sync_tracker-keeps e timestamp metrics r l.shared in
      let k = h.finalize_keeps e s in
      Answers-bind (ReachedAt {F = F} l.shared.world l.shared.machine.current_state)
        (Fails step (again step)) (step.finalize e s).0 _ (λ x q. inr (inr (e, s, q)))
        (λ u q. (k.1 ∙ t.1, ap (λ (x : StateMachine). x.current_state) (k.0 ∙ t.0)))

  enter_step-state :
      (step : Step F S) (l : Live F S) (o : Option MigrationState)
      → step_state step.name ≡ o
      → ((enter_step rt setup step l).shared.world ≡ l.shared.world)
        × ((enter_step rt setup step l).shared.machine.current_state
            ≡ after_step_state o l.shared.machine.current_state)
  unfolding enter_step
  enter_step-state step l none e = rw (enter_step, e) (refl, refl)
  enter_step-state step l (some st) e = rw (enter_step, e) (refl, advance-moved l.shared.machine st)

  again-state :
      (step : Step F S)
      → Repeatable step (again step)
      → (c : StepContext F) (l : Live F S) (o : Option MigrationState) → step_state step.name ≡ o
      → let s = (again step c (enter_step rt setup step l).shared).1 in
        (s.world ≡ l.shared.world)
        × (s.machine.current_state ≡ after_step_state o l.shared.machine.current_state)
  again-state step h c l o e =
      let s = (enter_step rt setup step l).shared in
      let entered = enter_step-state step l o e in
      (
        h.world_kept c s ∙ entered.0,
        elim (h.machine_moved c s) [
          | inl same ↦ ap (λ (x : StateMachine). x.current_state) same ∙ entered.1
          | inr (st, q, other) ↦
              ap (λ (x : StateMachine). x.current_state) other
              ∙ advance-moved s.machine st
              ∙ entered_twice st q
        ],
      )
    where
      entered_twice :
          (st : MigrationState)
          → step_state step.name ≡ some st
          → moved (enter_step rt setup step l).shared.machine.current_state st
            ≡ after_step_state o l.shared.machine.current_state
      entered_twice st q =
          let known : o ≡ some st = sym e ∙ q in
          rw known (
            ap (λ from. moved from st) (enter_step-state step l (some st) q).1
            ∙ moved-same l.shared.machine.current_state st)

  replay_step-Answers :
      (step : Step F S)
      → Repeatable step (again step)
      → (latest : Option (Metrics F)) (l : Live F S)
      → Answers
          (ReachedAt l.shared.world
            (after_step_state (step_state step.name) l.shared.machine.current_state))
          (Fails step (again step))
          (replay_step rt setup replaying started step latest l)
  unfolding replay_step
  replay_step-Answers step h latest l =
      let P =
        ReachedAt {F = F} l.shared.world
          (after_step_state (step_state step.name) l.shared.machine.current_state) in
      let E = Fails step (again step) in
      let entered = enter_step rt setup step l in
      let e =
        advance_context entered.context.execution_context (some step.name)
          entered.shared.machine.current_state (replaying.entered_at step.name) latest in
      let c = kept entered.context e entered.shared entered.context.execution_report in
      let (o, s) = again step c entered.shared in
      let there = again-state step h c l (step_state step.name) refl in
      Answers-bind P E o _ (λ e q. inl (c, entered.shared, q))
        (λ y q.
          Answers-bind P E (yielded_report step.name y) _ (λ e p. inr (inl (y, p)))
            (λ r p.
              Answers-map (ReachedAt {F = F} s.world s.machine.current_state) P E E _
                (replay_left-Answers step h (merge_retry_metrics rt (yielded_metrics y) latest) r
                  (yielded_context y c) (record entered { shared = s }))
                (λ x at. (at.0 ∙ there.0, at.1 ∙ there.1)) (λ e f. f)))

  -- Some of these steps raises the exception.
  abbrev pub OneFails : List (Step F S) → Exception F → Type 0
  OneFails steps e = Any (λ step. Fails step (again step) e) steps

  pub replay_steps-Answers :
      (steps : List (Step F S))
      → All (λ step. Repeatable step (again step)) steps
      → (latest : Option (Metrics F)) (l : Live F S)
      → Answers
          (ReachedAt l.shared.world
            (state_after (map (λ (s : Step F S). s.name) steps) l.shared.machine.current_state))
          (OneFails steps)
          (replay_steps rt setup replaying started steps latest l)
  unfolding replay_steps
  replay_steps-Answers [] h latest l = (refl, refl)
  replay_steps-Answers (step ∷ steps) h latest l =
      let names = map (λ (s : Step F S). s.name) steps in
      let here = after_step_state (step_state step.name) l.shared.machine.current_state in
      let P = ReachedAt {F = F} l.shared.world (state_after names here) in
      Answers-then (ReachedAt l.shared.world here) (Fails step (again step)) P
        (OneFails (step ∷ steps)) _ _ (replay_step-Answers step h.0 latest l) (λ e f. inl f)
        (λ x at.
          Answers-map
            (ReachedAt {F = F} x.0.shared.world
              (state_after names x.0.shared.machine.current_state))
            P (OneFails steps) (OneFails (step ∷ steps)) _ (replay_steps-Answers steps h.1 x.1 x.0)
            (λ y more. (more.0 ∙ at.0, more.1 ∙ ap (state_after names) at.1)) (λ e f. inr f))
