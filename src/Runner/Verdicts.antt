-- ===== src/Runner/Verdicts.antt =====
-- How a run ends: the loop over its steps settles, and what `run` returns or raises.
use enterprise_vault_migrati.Prelude.{
  ◌≡◌, refl, ◌≢◌, ◌↔◌, true, false, Option, none, some, List, [], ◌∷◌, ◌++◌,
}
use enterprise_vault_migrati.Runtime.{Runtime}
use enterprise_vault_migrati.Errors.{ok, err, Attempt, IsErr, Returns, ◌>>=◌}
use enterprise_vault_migrati.StateMachine.{MigrationState, is_terminal, transition_to}
use enterprise_vault_migrati.StateMachine.Terminal.{transition_to_raises_iff}
use enterprise_vault_migrati.Contracts.{ExecutionResult}
use enterprise_vault_migrati.Runner.Retries.{Trace}
use enterprise_vault_migrati.Runner.Steps.{Live, Step}
use enterprise_vault_migrati.Runner.Loop.{
  Setup, Outcome, all_done, step_failed, raised, out_of_fuel, run_steps,
}
use enterprise_vault_migrati.Runner.Course.{Interrupts, Settled, Course-Settled, run_steps-Course}
use enterprise_vault_migrati.Runner.Results.{
  conclude, run_from, failed_run, completed_run, build_result,
}

bind-IsErr : {F A B : Type 0} (m : Attempt F A) (f : A → B) → IsErr (m >>= λ x. ok (f x)) ↔ IsErr m
bind-IsErr (ok a) f = (λ x. x, λ x. x)
bind-IsErr (err e) f = (λ x. x, λ x. x)

bind-Returns :
    {F A B : Type 0} (P : B → Type 0) (m : Attempt F A) (f : A → B)
    → ((x : A) → P (f x))
    → Returns P (m >>= λ x. ok (f x))
bind-Returns P (ok a) f h = h a
bind-Returns P (err e) f h = tt

module _ {F S : Type 0} (rt : Runtime F) (setup : Setup F S) where
  -- What `run` answers from the end of its loop. It raises where the machine is in a terminal state
  -- that is not the one of that end.
  abbrev pub Verdict : Outcome F S → Option (Attempt F (ExecutionResult F × Live F S)) → Type 0
  Verdict (all_done l t) answer =
      (a : Attempt F (ExecutionResult F × Live F S)) × (answer ≡ some a)
      × (IsErr a ↔ (
          (is_terminal l.shared.machine.current_state ≡ true)
          × (MigrationState.completed ≢ l.shared.machine.current_state)))
      × Returns (λ r. l.context.execution_result ≡ none → (r.0.success ≡ true) × (r.0.errors ≡ []))
          a
  Verdict (step_failed completed step start e d n l t) answer =
      (a : Attempt F (ExecutionResult F × Live F S)) × (answer ≡ some a)
      × (IsErr a ↔ (
          (is_terminal l.shared.machine.current_state ≡ true)
          × (MigrationState.failed ≢ l.shared.machine.current_state)))
      × Returns (λ r. (r.0.success ≡ false) × (r.0.errors ≡ setup.errors ++ e.message ∷ [])) a
  Verdict (raised e) answer = (answer ≡ some (err e)) × Interrupts rt setup e
  Verdict out_of_fuel answer = ⊥

  conclude_lem : (o : Outcome F S) → Settled rt setup o → Verdict o (conclude rt setup o)
  unfolding conclude failed_run completed_run build_result
  conclude_lem (all_done l t) h =
      let moved = transition_to {F = F} l.shared.machine MigrationState.completed in
      let raises = bind-IsErr moved (completed_run rt setup l t) in
      let (there, back) = transition_to_raises_iff F l.shared.machine MigrationState.completed in
      (
        _,
        refl,
        (λ x. there (raises.0 x), λ x. raises.1 (back x)),
        bind-Returns _ moved (completed_run rt setup l t) (λ m p. rw p (refl, refl)),
      )
  conclude_lem (step_failed completed step start e d n l t) h =
      let moved = transition_to {F = F} l.shared.machine MigrationState.failed in
      let run = failed_run rt setup completed step start e d n l t in
      let raises = bind-IsErr moved run in
      let (there, back) = transition_to_raises_iff F l.shared.machine MigrationState.failed in
      (
        _,
        refl,
        (λ x. there (raises.0 x), λ x. raises.1 (back x)),
        bind-Returns _ moved run (λ m. (refl, refl)),
      )
  conclude_lem (raised e) h = (refl, h)
  conclude_lem out_of_fuel h = absurd h

  -- A run answers by the end of its loop. With all steps done it raises exactly if the machine is
  -- failed or cancelled, and else its own result is a success without errors; with a failed step it
  -- raises exactly if the machine is completed or cancelled, and else its result is no success and
  -- its last error is the message of the exception. An exception that the retry repository or the
  -- sleeper raises, or the power in the backoff delay by its overflow, it raises itself.
  pub run_answers :
      (steps : List (Step F S)) (l : Live F S) (t : Trace F)
      → Verdict (run_steps rt setup steps [] l t) (run_from rt setup steps l t)
  unfolding run_from
  run_answers steps l t =
      conclude_lem _ (Course-Settled rt setup (run_steps-Course rt setup steps l t))
