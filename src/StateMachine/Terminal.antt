-- ===== src/StateMachine/Terminal.antt =====
-- Terminal states absorb, every other state reaches any state.
use enterprise_vault_migrati.Prelude.{
  ◌≡◌, refl, true, false, some, List, [], ◌∷◌, arith, ap, ◌∙◌, ◌↔◌, ◌≢◌, Bool-cases, inl, inr,
}
use enterprise_vault_migrati.Errors.{IsErr}
use enterprise_vault_migrati.StateMachine.{
  MigrationState, same_state, StateMachine, is_terminal, can_transition, transition_to, advance,
  state_value, parse_state,
}

pub same_state_iff : (s t : MigrationState) → (same_state s t ≡ true) ↔ (s ≡ t)
unfolding same_state
same_state_iff s t = ground arith

pub state_value-parse : (s : MigrationState) → parse_state (state_value s) ≡ some s
unfolding parse_state state_value
state_value-parse MigrationState.created = refl
state_value-parse MigrationState.initializing = refl
state_value-parse _ = refl

-- The states that the runner and the steps ask for, one after the other, each behind the guard.
pub advance_all : List MigrationState → StateMachine → StateMachine
advance_all [] m = m
advance_all (s ∷ ss) m = advance_all ss (advance m s)

pub advance-terminal :
    (s : MigrationState) (m : StateMachine)
    → is_terminal m.current_state ≡ true
    → (advance m s).current_state ≡ m.current_state
unfolding advance
advance-terminal s m t = ground (arith, same_state_iff s m.current_state)

-- Whatever states are asked for, a machine in a terminal state stays in it.
pub terminal_absorbs :
    (ss : List MigrationState) (m : StateMachine)
    → is_terminal m.current_state ≡ true
    → (advance_all ss m).current_state ≡ m.current_state
unfolding advance_all
terminal_absorbs [] m t = refl
terminal_absorbs (s ∷ ss) m t =
    let e = advance-terminal s m t in terminal_absorbs ss (advance m s) (ap is_terminal e ∙ t) ∙ e

can_transition-false :
    (m : StateMachine) (s : MigrationState)
    → (can_transition m s ≡ false) ↔ ((is_terminal m.current_state ≡ true) × (s ≢ m.current_state))
unfolding can_transition
can_transition-false m s = (
  λ h. (
    ground (arith, same_state_iff s m.current_state),
    λ e. ground (arith, same_state_iff s m.current_state),
  ),
  λ h. ground (arith, same_state_iff s m.current_state, h.0, h.1),
)

-- `transition_to` raises exactly when the machine is in a terminal state other than the requested one.
pub transition_to_raises_iff :
    (F : Type 0) (m : StateMachine) (s : MigrationState)
    → IsErr (transition_to {F = F} m s)
      ↔ ((is_terminal m.current_state ≡ true) × (s ≢ m.current_state))
unfolding transition_to
transition_to_raises_iff F m s = elim (Bool-cases (can_transition m s)) [
  | inl y ↦ rw y (λ r. absurd r, λ h. cc (y, (can_transition-false m s).1 h))
  | inr n ↦ rw n (λ r. (can_transition-false m s).0 n, λ h. tt)
]
