-- ===== src/Runner/Resume.antt =====
-- src/application/use_cases/resume_migration.py. The orchestrator's run is the argument `run`.
use Prim.Native.String.{◌++◌ as ◌+s◌}
use enterprise_vault_migrati.Prelude.{
  ℕ, ◌==◌, String, Bool, true, false, Option, none, some, if◌then◌else◌, str_eq,
}
use enterprise_vault_migrati.Runtime.{Runtime}
use enterprise_vault_migrati.Errors.{
  ok, err, Attempt, plain, ◌>>=◌, checkpoint_not_found, non_resumable_checkpoint,
  unsupported_checkpoint_version,
}
use enterprise_vault_migrati.StateMachine.{MigrationState, state_value, parse_state}
use enterprise_vault_migrati.Checkpoint.{CheckpointSnapshot, CheckpointRepositoryPort}

-- `checkpoint_state in {MigrationState.COMPLETED, MigrationState.CANCELLED}`
unfoldable pub is_final : MigrationState → Bool
is_final MigrationState.completed = true
is_final MigrationState.cancelled = true
is_final _ = false

module _ {F : Type 0} where
  -- _validate_checkpoint
  unfoldable pub validate_checkpoint : String → String → Attempt F (Unit {0})
  validate_checkpoint key job =
      if str_eq key job
      then ok tt
      else err (
          plain non_resumable_checkpoint
            "Loaded checkpoint does not match the requested migration job.")

  -- the second half of `_validate_state`
  unfoldable pub validate_parsed : String → Bool → Option MigrationState → Attempt F (Unit {0})
  unfolding is_final
  validate_parsed value force none =
      err (plain non_resumable_checkpoint ("Unsupported checkpoint state: " +s value))
  validate_parsed value force (some s) =
      if is_final s
      then (if force
          then err (
              plain non_resumable_checkpoint
                "Forced resume is not supported for terminal checkpoints in this release.")
          else err (
              plain non_resumable_checkpoint
                ("Checkpoint state is not resumable: " +s state_value s)))
      else ok tt

  -- _validate_state
  unfoldable pub validate_state : String → Bool → Attempt F (Unit {0})
  unfolding validate_parsed
  validate_state value force = validate_parsed value force (parse_state value)

module _ {F : Type 0} (rt : Runtime F) where
  -- _validate_schema_version
  unfoldable pub validate_schema_version : ℕ → Attempt F (Unit {0})
  validate_schema_version version =
      if version == 1
      then ok tt
      else err (
          plain unsupported_checkpoint_version
            ("Unsupported checkpoint schema version: " +s rt.decimal version))

  -- the three checks
  unfoldable pub validated : String → Bool → CheckpointSnapshot F → Attempt F (Unit {0})
  unfolding validate_checkpoint validate_schema_version validate_state
  validated key force k = validate_checkpoint key k.migration_job_id >>= λ _.
      validate_schema_version k.version >>= λ _. validate_state k.current_state force

  unfoldable pub found :
      {A : Type 0}
      → (CheckpointSnapshot F → Attempt F A)
      → String
      → Bool
      → Option (CheckpointSnapshot F)
      → Attempt F A
  found run key force none =
      err (plain checkpoint_not_found ("No checkpoint exists for migration job " +s key))
  found run key force (some k) = validated key force k >>= λ _. run k

  -- execute
  unfoldable pub resume_migration :
      {A S : Type 0}
      → CheckpointRepositoryPort F S
      → (CheckpointSnapshot F → Attempt F A)
      → String
      → Bool
      → S
      → Attempt F A
  unfolding found validated
  resume_migration port run key force s = found run key force (port.load_checkpoint key s)
