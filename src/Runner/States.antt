-- ===== src/Runner/States.antt =====
-- The states of the machine as steps are entered one after the other.
use enterprise_vault_migrati.Prelude.{
  ◌≡◌, refl, ◌∙◌, String, false, Option, none, some, List, [], ◌∷◌, ◌++◌, arith, Bool-cases, inl,
  inr,
}
use enterprise_vault_migrati.StateMachine.{MigrationState, is_terminal}
use enterprise_vault_migrati.Runner.Steps.{step_state}
use enterprise_vault_migrati.Runner.Ready.{moved}

-- The state after a step of this name, and after steps of these names.
abbrev pub after_step_state : Option MigrationState → MigrationState → MigrationState
after_step_state none from = from
after_step_state (some st) from = moved from st

abbrev pub state_after : List String → MigrationState → MigrationState
state_after [] from = from
state_after (name ∷ names) from = state_after names (after_step_state (step_state name) from)

pub state_after-append :
    (xs ys : List String) (from : MigrationState)
    → state_after (xs ++ ys) from ≡ state_after ys (state_after xs from)
state_after-append [] ys from = refl
state_after-append (x ∷ xs) ys from =
    state_after-append xs ys (after_step_state (step_state x) from)

step_state-running :
    (name : String) (st : MigrationState) → step_state name ≡ some st → is_terminal st ≡ false
unfolding step_state is_terminal
step_state-running name st h = ground (arith, h)

pub moved-same : (from st : MigrationState) → moved (moved from st) st ≡ moved from st
moved-same from st = elim (Bool-cases (is_terminal from)) [
  | inl y ↦ rw (y, y) refl
  | inr n ↦ rw n (elim (Bool-cases (is_terminal st)) [ inl y ↦ rw y refl | inr n' ↦ rw n' refl ])
]

-- Where steps have been entered on the way, the next state is reached as from the start.
pub moved-state_after :
    (names : List String) (from to : MigrationState)
    → moved (state_after names from) to ≡ moved from to
moved-state_after [] from to = refl
moved-state_after (name ∷ names) from to =
    moved-state_after names (after_step_state (step_state name) from) to
    ∙ through (step_state name) refl
  where
    through :
        (o : Option MigrationState)
        → step_state name ≡ o
        → moved (after_step_state o from) to ≡ moved from to
    through none e = refl
    through (some st) e = elim (Bool-cases (is_terminal from)) [
      | inl y ↦ rw (y, y) refl
      | inr n ↦ rw (n, step_state-running name st e) refl
    ]
