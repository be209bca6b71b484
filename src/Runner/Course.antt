-- ===== src/Runner/Course.antt =====
-- The course of the loop over the steps of a run.
use mathlib.Core.Option
use enterprise_vault_migrati.Prelude.{
  ℕ, suc, ◌≡◌, refl, Option, none, some, List, [], ◌∷◌, ◌++◌, ◌≤◌, ◌⊎◌, inl, inr, max,
}
use enterprise_vault_migrati.Runtime.{Runtime}
use enterprise_vault_migrati.Errors.{err, Attempt, Exception}
use enterprise_vault_migrati.Contracts.{ExecutionReport}
use enterprise_vault_migrati.Retry.{RetryPolicy, RetryDecision}
use enterprise_vault_migrati.Runner.Retries.{Trace, Ending, finished, gave_up, escaped}
use enterprise_vault_migrati.Runner.Decisions.{limit, Overflows, Raises}
use enterprise_vault_migrati.Runner.Counters.{Ends, attempts-Ends}
use enterprise_vault_migrati.Runner.Steps.{Live, Step}
use enterprise_vault_migrati.Runner.Loop.{
  Setup, Outcome, all_done, step_failed, raised, out_of_fuel, run_steps, run_step, attempt_step,
  attempts_fuel, after_step, enter_step, in_world,
}

attempts_fuel_lem : {F : Type 0} (p : Option (RetryPolicy F)) → attempts_fuel p ≡ suc (limit p)
unfolding attempts_fuel
attempts_fuel_lem none = refl
attempts_fuel_lem (some p) = refl

in_world-Raises :
    {F S X : Type 0} (o : Option (X → S → Attempt F (Unit {0}) × S)) {x : Exception F}
    → Raises (Option.map in_world o) x
    → Raises o x
unfolding in_world
in_world-Raises none (f, p, a, l, q) = absurd cc
in_world-Raises (some g) {x} (f, p, a, l, q) =
    let same : (in_world g a l).0 ≡ err x = cc in (g, refl, a, l.shared.world, same)

module _ {F S : Type 0} (rt : Runtime F) (setup : Setup F S) where
  -- Where an exception that leaves a run's loop comes from.
  abbrev pub Interrupts : Exception F → Type 0
  Interrupts x = Overflows rt setup.policy ⊎ (Raises setup.save_retry x ⊎ Raises setup.sleeper x)

  -- The attempts of a step, whose state is entered first, end like this and leave this behind.
  abbrev pub EndsWith :
      Step F S → Live F S → Trace F → Ending F (ExecutionReport F) → Live F S → Trace F → Type 0
  EndsWith step l t ending l' t' =
      run_step rt setup step (enter_step rt setup step l) t ≡ (some ending, (l', t'))

  -- The course of the loop over the steps with what it leads to: each step is done in turn, from what
  -- the one before has left; the first that fails for good ends the loop, with the steps done before
  -- it as the completed ones.
  pub data Course
      : List (Step F S) → List (Step F S) → Live F S → Trace F → Outcome F S → Type 0 where
    done :
        (completed : List (Step F S)) (l : Live F S) (t : Trace F)
        → Course [] completed l t (all_done l t)
    passes :
        (step : Step F S) (steps completed : List (Step F S)) (l l' : Live F S) (t t' : Trace F)
        (r : ExecutionReport F) (n : ℕ) {o : Outcome F S}
        → EndsWith step l t (finished r n) l' t'
        → n ≤ max 1 (limit setup.policy)
        → Course steps (completed ++ step ∷ []) l' t' o
        → Course (step ∷ steps) completed l t o
    fails :
        (step : Step F S) (steps completed : List (Step F S)) (l l' : Live F S) (t t' : Trace F)
        (e : Exception F) (d : Option (RetryDecision F)) (n : ℕ)
        → EndsWith step l t (gave_up e d n) l' t'
        → n ≤ max 1 (limit setup.policy)
        → Course
            (step ∷ steps)
            completed
            l
            t
            (step_failed completed step (enter_step rt setup step l).context e d n l' t')
    breaks :
        (step : Step F S) (steps completed : List (Step F S)) (l l' : Live F S) (t t' : Trace F)
        (x : Exception F)
        → EndsWith step l t (escaped x) l' t'
        → Interrupts x
        → Course (step ∷ steps) completed l t (raised x)

  -- What is known of the end of a step's attempts.
  abbrev Known : Option (Ending F (ExecutionReport F)) → Type 0
  Known none = ⊥
  Known (some (finished r n)) = n ≤ max 1 (limit setup.policy)
  Known (some (gave_up e d n)) = n ≤ max 1 (limit setup.policy)
  Known (some (escaped x)) = Interrupts x

  Ends-Known :
      (step : Step F S) (l : Live F S) (t : Trace F)
      (q : Option (Ending F (ExecutionReport F)) × (Live F S × Trace F))
      → Ends rt setup.policy setup.classifier
          (Option.map in_world setup.save_retry)
          (Option.map in_world setup.sleeper)
          setup.migration_id
          step.name
          setup.started_at
          (setup.retried_at step.name)
          (attempt_step rt setup step l.context)
          1
          t
          q
      → Known q.0
  Ends-Known step l t (none, (s, u)) h = h
  Ends-Known step l t (some (finished a m), (s, u)) h = h.allowed
  Ends-Known step l t (some (gave_up e d m), (s, u)) h = h.allowed
  Ends-Known step l t (some (escaped x), (s, u)) (inl over) = inl over
  Ends-Known step l t (some (escaped x), (s, u)) (inr (inl saves)) =
      inr (inl (in_world-Raises setup.save_retry saves))
  Ends-Known step l t (some (escaped x), (s, u)) (inr (inr sleeps)) =
      inr (inr (in_world-Raises setup.sleeper sleeps))

  run_step-Known :
      (step : Step F S) (l : Live F S) (t : Trace F) → Known (run_step rt setup step l t).0
  unfolding run_step
  run_step-Known step l t = rw (attempts_fuel_lem setup.policy) (
      Ends-Known step l t _ (
        attempts-Ends rt setup.policy setup.classifier (Option.map in_world setup.save_retry)
          (Option.map in_world setup.sleeper) setup.migration_id step.name setup.started_at
          (setup.retried_at step.name) (attempt_step rt setup step l.context) l t))

  after_step-Course :
      (step : Step F S) (steps completed : List (Step F S)) (l : Live F S) (t : Trace F)
      (q : Option (Ending F (ExecutionReport F)) × (Live F S × Trace F)) (further : Outcome F S)
      → run_step rt setup step (enter_step rt setup step l) t ≡ q
      → Known q.0
      → Course steps (completed ++ step ∷ []) q.1.0 q.1.1 further
      → Course (step ∷ steps) completed l t (
          after_step rt setup step
            (enter_step rt setup step l).context
            completed
            q.0
            q.1.0
            q.1.1
            further)
  unfolding after_step
  after_step-Course step steps completed l t (none, (l', t')) further p h rest = absurd h
  after_step-Course step steps completed l t (some (finished r n), (l', t')) further p h rest =
      passes step steps completed l l' t t' r n p h rest
  after_step-Course step steps completed l t (some (gave_up e d n), (l', t')) further p h rest =
      fails step steps completed l l' t t' e d n p h
  after_step-Course step steps completed l t (some (escaped x), (l', t')) further p h rest =
      breaks step steps completed l l' t t' x p h

  steps-Course :
      (steps completed : List (Step F S)) (l : Live F S) (t : Trace F)
      → Course steps completed l t (run_steps rt setup steps completed l t)
  unfolding run_steps
  steps-Course [] completed l t = done completed l t
  steps-Course (step ∷ steps) completed l t =
      let q = run_step rt setup step (enter_step rt setup step l) t in
      after_step-Course step steps completed l t q _ refl
        (run_step-Known step (enter_step rt setup step l) t)
        (steps-Course steps (completed ++ step ∷ []) q.1.0 q.1.1)

  pub run_steps-Course :
      (steps : List (Step F S)) (l : Live F S) (t : Trace F)
      → Course steps [] l t (run_steps rt setup steps [] l t)
  run_steps-Course steps l t = steps-Course steps [] l t

  -- What a course leads to.
  abbrev pub Settled : Outcome F S → Type 0
  Settled (all_done l t) = Unit
  Settled (step_failed completed step start e d n l t) = Unit
  Settled (raised x) = Interrupts x
  Settled out_of_fuel = ⊥

  pub Course-Settled :
      {steps completed : List (Step F S)} {l : Live F S} {t : Trace F} {o : Outcome F S}
      → Course steps completed l t o
      → Settled o
  Course-Settled (done completed l t) = tt
  Course-Settled (passes step steps completed l l' t t' r n p h rest) = Course-Settled rest
  Course-Settled (fails step steps completed l l' t t' e d n p h) = tt
  Course-Settled (breaks step steps completed l l' t t' x p h) = h
