-- ===== src/Finalize/Ending.antt =====
-- The state in which finalization leaves the migration.
use enterprise_vault_migrati.Prelude.{
  ◌≡◌, refl, Bool, true, false, arith, if◌then◌else◌, Some, Bool-cases, inl, inr, ap, ◌∙◌,
}
use enterprise_vault_migrati.Runtime.{Runtime}
use enterprise_vault_migrati.StateMachine.{
  MigrationState, StateMachine, is_terminal, can_transition, advance,
}
use enterprise_vault_migrati.StateMachine.Terminal.{same_state_iff}
use enterprise_vault_migrati.Context.{StepContext}
use enterprise_vault_migrati.Finalize.{
  move_to, advance_state_machine, resolve_state_machine, has_failed_execution, finalize_migration,
}

-- Where a machine ends: it stays in a terminal state, and else fails or completes.
abbrev pub ending : Bool → MigrationState → MigrationState
ending failed s =
    if is_terminal s then s else if failed then MigrationState.failed else MigrationState.completed

advance-state :
    (m : StateMachine) (s : MigrationState)
    → (advance m s).current_state ≡ (if is_terminal m.current_state then m.current_state else s)
unfolding advance can_transition
advance-state m s = ground (arith, same_state_iff s m.current_state)

move_to-state :
    (s : MigrationState) (m : StateMachine)
    → (move_to s m).current_state ≡ (if is_terminal m.current_state then m.current_state else s)
unfolding move_to
move_to-state s m = ground (arith, same_state_iff m.current_state s, advance-state m s)

completing :
    (m n : StateMachine)
    → n.current_state
      ≡ (if is_terminal m.current_state then m.current_state else MigrationState.finalizing)
    → (advance n MigrationState.completed).current_state ≡ ending false m.current_state
completing m n h = elim (Bool-cases (is_terminal m.current_state)) [
  | inl y ↦ rw (advance-state, h, y, y) refl
  | inr k ↦ rw (advance-state, h, k) (unfold is_terminal in refl)
]

advance_state_machine_lem :
    (failed : Bool) (m : StateMachine)
    → (advance_state_machine failed m).current_state ≡ ending failed m.current_state
unfolding advance_state_machine
advance_state_machine_lem true m = move_to-state MigrationState.failed m
advance_state_machine_lem false m =
    completing m (move_to MigrationState.finalizing m) (move_to-state MigrationState.finalizing m)

ending_terminal : (failed : Bool) (s : MigrationState) → is_terminal (ending failed s) ≡ true
ending_terminal failed s = elim (Bool-cases (is_terminal s)) [
  | inl y ↦ rw (y, y) refl
  | inr k ↦ rw k (fresh failed)
]
  where
    fresh :
        (b : Bool)
        → is_terminal (if b then MigrationState.failed else MigrationState.completed) ≡ true
    fresh true = unfold is_terminal in refl
    fresh false = unfold is_terminal in refl

module _ {F : Type 0} (rt : Runtime F) where
  -- The state before finalization: that of the machine, or else of the context.
  abbrev pub state_before : StepContext F → MigrationState
  state_before c =
      (resolve_state_machine c.state_machine c.execution_context.state
        (has_failed_execution c)).current_state

  -- Finalization always leaves a machine in a terminal state: one that was terminal stays, and any
  -- other becomes failed if the run has failed and completed if not.
  pub finalize_terminal :
      (c : StepContext F)
      → Some
          (λ (m : StateMachine).
            (m.current_state ≡ ending (has_failed_execution c) (state_before c))
            × (is_terminal m.current_state ≡ true))
          (finalize_migration rt c).state_machine
  unfolding finalize_migration
  finalize_terminal c =
      let failed = has_failed_execution c in
      let m = resolve_state_machine c.state_machine c.execution_context.state failed in
      let e = advance_state_machine_lem failed m in
      (e, ap is_terminal e ∙ ending_terminal failed m.current_state)
