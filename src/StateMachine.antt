-- ===== src/StateMachine.antt =====
-- src/migration_engine/state_machine.py: the lifecycle states and the guarded transitions.
pub mod Terminal
use Prim.Native.String.{◌++◌ as ◌+s◌}
use enterprise_vault_migrati.Prelude.{
  String, Bool, true, false, Option, none, some, if◌then◌else◌, str_eq,
}
use enterprise_vault_migrati.Errors.{ok, err, Attempt, plain, value_error}

pub data MigrationState : Type 0 where
  created initializing discovering extracting transforming uploading verifying : MigrationState
  finalizing completed failed paused cancelled : MigrationState

pub MigrationState-discrete : Discrete MigrationState
MigrationState-discrete = hlevel

-- state == other
unfoldable pub same_state : MigrationState → MigrationState → Bool
unfolding MigrationState-discrete
same_state s t = elim (MigrationState-discrete s t) [ yes _ ↦ true | no _ ↦ false ]

-- state.value
unfoldable pub state_value : MigrationState → String
state_value MigrationState.created = "created"
state_value MigrationState.initializing = "initializing"
state_value MigrationState.discovering = "discovering"
state_value MigrationState.extracting = "extracting"
state_value MigrationState.transforming = "transforming"
state_value MigrationState.uploading = "uploading"
state_value MigrationState.verifying = "verifying"
state_value MigrationState.finalizing = "finalizing"
state_value MigrationState.completed = "completed"
state_value MigrationState.failed = "failed"
state_value MigrationState.paused = "paused"
state_value MigrationState.cancelled = "cancelled"

pub record StateMachine : Type 0 where
  pub current_state : MigrationState
  pub previous_state : Option MigrationState
  pub initial_state : MigrationState

-- MigrationStateMachine(current_state=state)
unfoldable pub new : MigrationState → StateMachine
new s = record { current_state = s; previous_state = none; initial_state = s }

unfoldable pub is_terminal : MigrationState → Bool
is_terminal MigrationState.completed = true
is_terminal MigrationState.failed = true
is_terminal MigrationState.cancelled = true
is_terminal _ = false

unfoldable pub can_transition : StateMachine → MigrationState → Bool
unfolding same_state is_terminal
can_transition m s = if is_terminal m.current_state then same_state s m.current_state else true

unfoldable pub transition_to : {F : Type 0} → StateMachine → MigrationState → Attempt F StateMachine
unfolding can_transition state_value
transition_to m s =
    if can_transition m s
    then ok (record m { current_state = s; previous_state = some m.current_state })
    else err (
        plain value_error
          ("Cannot transition from " +s state_value m.current_state +s " to " +s state_value s))

unfoldable pub reset : StateMachine → StateMachine
reset m = record m { current_state = m.initial_state; previous_state = none }

-- The guard that the runner and the steps write: transition only where it is allowed.
unfoldable pub advance : StateMachine → MigrationState → StateMachine
unfolding can_transition
advance m s =
    if can_transition m s
    then record m { current_state = s; previous_state = some m.current_state }
    else m

-- MigrationState(value), which raises ValueError for an unknown value
unfoldable pub parse_state : String → Option MigrationState
parse_state v =
    if str_eq v "created"
    then some MigrationState.created
    else if str_eq v "initializing"
    then some MigrationState.initializing
    else if str_eq v "discovering"
    then some MigrationState.discovering
    else if str_eq v "extracting"
    then some MigrationState.extracting
    else if str_eq v "transforming"
    then some MigrationState.transforming
    else if str_eq v "uploading"
    then some MigrationState.uploading
    else if str_eq v "verifying"
    then some MigrationState.verifying
    else if str_eq v "finalizing"
    then some MigrationState.finalizing
    else if str_eq v "completed"
    then some MigrationState.completed
    else if str_eq v "failed"
    then some MigrationState.failed
    else if str_eq v "paused"
    then some MigrationState.paused
    else if str_eq v "cancelled"
    then some MigrationState.cancelled
    else none
