-- ===== src/Runner/Ready.antt =====
-- What a run that is not resumed starts from.
use enterprise_vault_migrati.Prelude.{
  ℕ, ◌≡◌, refl, ap, ◌∙◌, String, false, Option, none, some, Some, or_else, or_option, if◌then◌else◌,
  Bool-cases, inl, inr,
}
use enterprise_vault_migrati.Errors.{ok}
use enterprise_vault_migrati.StateMachine.{
  MigrationState, StateMachine, is_terminal, can_transition, advance, transition_to, new,
}
use enterprise_vault_migrati.StateMachine.Terminal.{advance-terminal}
use enterprise_vault_migrati.Contracts.{Metrics, ExecutionContext}
use enterprise_vault_migrati.Tracker.{
  ProgressTracker, update_execution_context, update_migration_state, new_tracker,
}
use enterprise_vault_migrati.Context.{StepContext}
use enterprise_vault_migrati.Runner.Steps.{Live, Shared}
use enterprise_vault_migrati.Runner.Initial.{
  Runner, start_run, initialize, build_initial_runtime, build_current_step_context, given_runtime,
  new_runtime,
}

-- The state from which `advance` goes on to another one: a terminal one is kept.
abbrev pub moved : MigrationState → MigrationState → MigrationState
moved from to = if is_terminal from then from else to

pub advance-moved :
    (m : StateMachine) (s : MigrationState) → (advance m s).current_state ≡ moved m.current_state s
advance-moved m s = elim (Bool-cases (is_terminal m.current_state)) [
  | inl y ↦ rw y (advance-terminal s m y)
  | inr n ↦ rw n (unfold advance can_transition in rw n refl)
]

-- The runner's machine, its tracker and the contexts agree on the state.
pub record Agrees {F S : Type 0} (s : Shared F S) (c : StepContext F) : Type 0 where
  pub state_agrees : c.execution_context.state ≡ some s.machine.current_state
  pub machine_agrees : c.state_machine ≡ some s.machine
  pub tracker_agrees : c.progress_tracker ≡ s.tracker
  pub tracked :
      Some
        (λ (t : ProgressTracker F).
          (t.current_migration_state ≡ some s.machine.current_state)
          × (t.current_execution_context ≡ some c.execution_context))
        s.tracker

-- The state in which a runner starts.
abbrev pub starting_state : {F : Type 0} → Option (StepContext F) → MigrationState
starting_state none = MigrationState.initializing
starting_state (some c) =
    moved (or_else c.execution_context.state MigrationState.created) MigrationState.initializing

transition_to-free :
    (F : Type 0) (m : StateMachine) (s : MigrationState)
    → is_terminal m.current_state ≡ false
    → transition_to {F = F} m s
      ≡ ok (record m { current_state = s; previous_state = some m.current_state })
unfolding transition_to can_transition
transition_to-free F m s h = rw h refl

or_option_same : {A : Type 0} (o : Option A) → or_option o o ≡ o
or_option_same none = refl
or_option_same (some a) = refl

module _ {F S : Type 0} (now : ℕ) (job : String) where
  abbrev IsReady : Option (StepContext F) → StepContext F × Shared F S → Type 0
  IsReady initial x = Agrees x.1 x.0 × (x.1.machine.current_state ≡ starting_state initial)

  given-IsReady :
      (c : StepContext F) (r : Runner F S) → IsReady (some c) (given_runtime now job c r)
  unfolding given_runtime update_migration_state update_execution_context
  given-IsReady c r = (
    record {
      state_agrees = refl;
      machine_agrees = refl;
      tracker_agrees = refl;
      tracked = (refl, refl);
    },
    unfold new in
        advance-moved (new (or_else c.execution_context.state MigrationState.created))
          MigrationState.initializing,
  )

  new-IsReady :
      (m : StateMachine) (r : Runner F S)
      → m.current_state ≡ MigrationState.initializing
      → IsReady none (new_runtime now job m r)
  unfolding new_runtime update_execution_context new_tracker
  new-IsReady m r h = (
    record {
      state_agrees = refl;
      machine_agrees = refl;
      tracker_agrees = refl;
      tracked = (refl, refl);
    },
    h,
  )

  build_initial_runtime-IsReady :
      (initial : Option (StepContext F)) (r : Runner F S)
      → (initial ≡ none → is_terminal r.shared.machine.current_state ≡ false)
      → (x : StepContext F × Shared F S) × (build_initial_runtime now job initial r ≡ ok x)
        × IsReady initial x
  unfolding build_initial_runtime
  build_initial_runtime-IsReady (some c) r h = (_, refl, given-IsReady c r)
  build_initial_runtime-IsReady none r h =
      let e = transition_to-free F r.shared.machine MigrationState.initializing (h refl) in
      let machine = record r.shared.machine {
        current_state = MigrationState.initializing;
        previous_state = some r.shared.machine.current_state;
      } in
      (new_runtime now job machine r, rw e refl, new-IsReady machine r refl)

  initialize_lem :
      (o : Option (ExecutionContext F)) (r : Runner F S) (x : StepContext F × Shared F S)
      → o ≡ none
      → build_initial_runtime now job r.initial_context r ≡ ok x
      → initialize now job o r
        ≡ ok (
          x.0.execution_context,
          record r {
            shared = x.1;
            execution_context = some x.0.execution_context;
            current_step_context = some x.0;
          },
        )
  unfolding initialize
  initialize_lem none r x e q = rw q refl
  initialize_lem (some c) r x e q = absurd (cc e)

  -- The runtime as the loop gets it.
  abbrev begun : Runner F S → StepContext F × Shared F S → Live F S × Option (Metrics F)
  begun r (c, s) = (
    record {
      shared = s;
      context = record c {
        progress_tracker = or_option s.tracker c.progress_tracker;
        state_machine = some s.machine;
      };
      attempt_context = c.execution_context;
      successful_steps = 0;
      failed_steps = 0;
      skipped_steps = 0;
    },
    r.metrics,
  )

  -- A runner that has not run, with an initial context or a machine that is in no terminal state,
  -- starts without raising: its machine, its tracker and its contexts agree on the state, which is
  -- initializing, or that of the initial context if that is terminal.
  pub start_run-Agrees :
      (r : Runner F S)
      → r.execution_context ≡ none
      → (r.initial_context ≡ none → is_terminal r.shared.machine.current_state ≡ false)
      → (x : Live F S × Option (Metrics F)) × (start_run now job r ≡ ok x)
        × Agrees x.0.shared x.0.context
        × (x.0.shared.machine.current_state ≡ starting_state r.initial_context)
  unfolding start_run build_current_step_context
  start_run-Agrees r e h =
      let (x, q, (a, st)) = build_initial_runtime-IsReady r.initial_context r h in
      (
        begun r x,
        rw (initialize_lem r.execution_context r x e q) refl,
        record {
          state_agrees = a.state_agrees;
          machine_agrees = refl;
          tracker_agrees =
              ap (λ t. or_option x.1.tracker t) a.tracker_agrees ∙ or_option_same x.1.tracker;
          tracked = a.tracked;
        },
        st,
      )
