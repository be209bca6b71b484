-- ===== src/Runner/Admission.antt =====
-- Which checkpoints are resumed.
use enterprise_vault_migrati.Prelude.{
  ◌==◌, ◌≡◌, ◌↔◌, refl, String, Bool, true, false, Option, none, some, arith, str_eq, Bool-cases,
  inl, inr, not, ◌⊎◌, ◌&&◌,
}
use enterprise_vault_migrati.Runtime.{Runtime}
use enterprise_vault_migrati.Errors.{ok, err, Attempt, IsErr, ◌>>=◌}
use enterprise_vault_migrati.StateMachine.{MigrationState, parse_state}
use enterprise_vault_migrati.Checkpoint.{CheckpointSnapshot, CheckpointRepositoryPort}
use enterprise_vault_migrati.Runner.Resume.{
  is_final, validate_checkpoint, validate_schema_version, validate_parsed, validate_state,
  validated, found, resume_migration,
}

-- A state that parses and is neither completed nor cancelled.
abbrev pub resumes : Option MigrationState → Bool
resumes none = false
resumes (some MigrationState.completed) = false
resumes (some MigrationState.cancelled) = false
resumes (some _) = true

-- The checkpoint is of the job and of version 1, and its state resumes.
abbrev pub is_admissible : {F : Type 0} → String → CheckpointSnapshot F → Bool
is_admissible key k =
    str_eq key k.migration_job_id && (k.version == 1) && resumes (parse_state k.current_state)

is_final_lem : (s : MigrationState) → is_final s ≡ not (resumes (some s))
unfolding is_final
is_final_lem MigrationState.completed = refl
is_final_lem MigrationState.cancelled = refl
is_final_lem _ = refl

module _ {F : Type 0} (rt : Runtime F) where
  validate_parsed_iff :
      (value : String) (force : Bool) (o : Option MigrationState)
      → (validate_parsed {F = F} value force o ≡ ok tt) ↔ (resumes o ≡ true)
  unfolding validate_parsed
  validate_parsed_iff value force none = (λ h. absurd (ground arith), λ h. absurd (ground arith))
  validate_parsed_iff value force (some s) = ground (arith, is_final_lem s)

  validated_iff :
      (key : String) (force : Bool) (k : CheckpointSnapshot F)
      → (validated rt key force k ≡ ok tt) ↔ (is_admissible key k ≡ true)
  unfolding validated validate_checkpoint validate_schema_version validate_state
  validated_iff key force k =
      let (there, back) = validate_parsed_iff k.current_state force (parse_state k.current_state) in
      (λ h. ground (arith, there), λ h. ground (arith, back))

  -- What the use case answers, by the checkpoint of the job: it runs an admissible one, and raises for
  -- another one and for none.
  abbrev pub Answer :
      {A : Type 0}
      → (CheckpointSnapshot F → Attempt F A)
      → String
      → Option (CheckpointSnapshot F)
      → Attempt F A
      → Type 0
  Answer run key none answer = IsErr answer
  Answer run key (some k) answer =
      ((is_admissible key k ≡ true) × (answer ≡ run k))
      ⊎ ((is_admissible key k ≡ false) × IsErr answer)

  by_checks :
      {A : Type 0} (run : CheckpointSnapshot F → Attempt F A) (key : String)
      (k : CheckpointSnapshot F) (checks : Attempt F (Unit {0}))
      → ((checks ≡ ok tt) ↔ (is_admissible key k ≡ true))
      → Answer run key (some k) (checks >>= λ _. run k)
  by_checks run key k (ok tt) (there, back) = inl (there refl, refl)
  by_checks run key k (err e) (there, back) = elim (Bool-cases (is_admissible key k)) [
    | inl y ↦ absurd (cc (back y))
    | inr n ↦ inr (n, tt)
  ]

  by_checkpoint :
      {A : Type 0} (run : CheckpointSnapshot F → Attempt F A) (key : String) (force : Bool)
      (o : Option (CheckpointSnapshot F))
      → Answer run key o (found rt run key force o)
  unfolding found
  by_checkpoint run key force none = tt
  by_checkpoint run key force (some k) =
      by_checks run key k (validated rt key force k) (validated_iff key force k)

  -- Resuming a job runs its checkpoint exactly if that is of the job, has version 1 and a known state
  -- other than completed and cancelled, whether forced or not; else it raises and nothing is run.
  pub resume_answers :
      {A S : Type 0} (port : CheckpointRepositoryPort F S)
      (run : CheckpointSnapshot F → Attempt F A) (key : String) (force : Bool) (s : S)
      → Answer run key (port.load_checkpoint key s) (resume_migration rt port run key force s)
  unfolding resume_migration
  resume_answers port run key force s = by_checkpoint run key force (port.load_checkpoint key s)
