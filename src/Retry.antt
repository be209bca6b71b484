-- ===== src/Retry.antt =====
-- src/migration_engine/retry/*.py, src/domain/enums/retry_strategy.py, the retry record of
-- src/domain/entities/retry_record.py and the in-memory retry repository of
-- src/adapters/database/in_memory_retry_repository.py.
pub mod Policy
pub mod Records
use enterprise_vault_migrati.Prelude.{
  ℕ, ◌-◌, String, Bool, true, false, Option, none, some, if◌then◌else◌, ltb, ◌&&◌, List, [], ◌∷◌,
  ◌++◌, or_else,
}
use enterprise_vault_migrati.Dict
use enterprise_vault_migrati.Dict.{Dict}
use enterprise_vault_migrati.Runtime.{Runtime, float_min}
use enterprise_vault_migrati.Errors.{
  ok, err, Attempt, plain, other_error, validation_error, value_error,
}

-- RetryStrategy
pub data RetryStrategy : Type 0 where
  no_retry fixed_delay exponential_backoff : RetryStrategy

-- `strategy is RetryStrategy.NONE` and `strategy is RetryStrategy.EXPONENTIAL_BACKOFF`
unfoldable pub is_no_retry : RetryStrategy → Bool
is_no_retry RetryStrategy.no_retry = true
is_no_retry _ = false

unfoldable pub is_exponential : RetryStrategy → Bool
is_exponential RetryStrategy.exponential_backoff = true
is_exponential _ = false

-- RetryDecision
pub record RetryDecision (F : Type 0) : Type 0 where
  pub should_retry : Bool
  pub attempt_number : ℕ
  pub remaining_attempts : ℕ
  pub delay_seconds : F
  pub strategy : RetryStrategy
  pub reason : Option String

-- RetryPolicy
pub record RetryPolicy (F : Type 0) : Type 0 where
  pub strategy : RetryStrategy
  pub max_attempts : ℕ
  pub fixed_delay_seconds : F
  pub initial_backoff_seconds : F
  pub maximum_backoff_seconds : F
  pub backoff_multiplier : F

module _ {F : Type 0} (rt : Runtime F) where
  open rt use {zero_float, one_float, float_lt, times, power}

  -- RetryPolicy.__post_init__
  unfoldable pub validate_policy : RetryPolicy F → Attempt F (RetryPolicy F)
  unfolding is_exponential
  validate_policy p =
      if ltb p.max_attempts 1
      then err (plain validation_error "max_attempts must be greater than or equal to 1.")
      else if float_lt p.fixed_delay_seconds zero_float
      then err (plain validation_error "fixed_delay_seconds must be greater than or equal to 0.")
      else if float_lt p.initial_backoff_seconds zero_float
      then err
          (plain validation_error "initial_backoff_seconds must be greater than or equal to 0.")
      else if float_lt p.maximum_backoff_seconds zero_float
      then err
          (plain validation_error "maximum_backoff_seconds must be greater than or equal to 0.")
      else if float_lt p.backoff_multiplier one_float
      then err (plain validation_error "backoff_multiplier must be greater than or equal to 1.")
      else if is_exponential p.strategy
          && float_lt p.maximum_backoff_seconds p.initial_backoff_seconds
      then err (
          plain validation_error
            "maximum_backoff_seconds must be greater than or equal to initial_backoff_seconds for exponential backoff.")
      else ok p

  -- `min(initial * power, maximum)`, where the power does not overflow
  unfoldable pub backoff : RetryPolicy F → Option F → Attempt F F
  backoff p none = err (plain other_error "(34, 'Numerical result out of range')")
  backoff p (some x) =
      ok (float_min rt (times p.initial_backoff_seconds x) p.maximum_backoff_seconds)

  unfoldable pub strategy_delay : RetryStrategy → RetryPolicy F → ℕ → Attempt F F
  unfolding backoff
  strategy_delay RetryStrategy.no_retry p n = ok zero_float
  strategy_delay RetryStrategy.fixed_delay p n = ok p.fixed_delay_seconds
  strategy_delay RetryStrategy.exponential_backoff p n =
      backoff p (power p.backoff_multiplier (n - 1))

  -- RetryPolicy._calculate_delay
  unfoldable pub calculate_delay : RetryPolicy F → ℕ → Bool → Attempt F F
  unfolding strategy_delay
  calculate_delay p attempt_number should_retry =
      if should_retry then strategy_delay p.strategy p attempt_number else ok zero_float

  -- the decision, once its delay is known
  unfoldable pub decided :
      RetryPolicy F → ℕ → Bool → Option String → Attempt F F → Attempt F (RetryDecision F)
  decided p attempt_number should_retry reason (err e) = err e
  decided p attempt_number should_retry reason (ok delay) = ok (record {
    should_retry = should_retry;
    attempt_number = attempt_number;
    remaining_attempts = p.max_attempts - attempt_number;
    delay_seconds = delay;
    strategy = p.strategy;
    reason = reason;
  })

  -- RetryPolicy.decide; max(max_attempts - attempt_number, 0) is subtraction that stops at 0
  unfoldable pub decide : RetryPolicy F → ℕ → Bool → Option String → Attempt F (RetryDecision F)
  unfolding is_no_retry calculate_delay decided
  decide p attempt_number retryable reason =
      if ltb attempt_number 1
      then err (plain validation_error "attempt_number must be greater than or equal to 1.")
      else let should_retry =
          retryable
          && (if is_no_retry p.strategy then false else true)
          && ltb attempt_number p.max_attempts in
        decided p attempt_number should_retry reason (calculate_delay p attempt_number should_retry)

-- RetryRecord; identifiers are the texts of their UUIDs
pub record RetryRecord : Type 0 where
  pub id : String
  pub migration_item_id : Option String
  pub retry_strategy : RetryStrategy
  pub attempt_number : ℕ
  pub migration_job_id : Option String
  pub pipeline_step_name : Option String
  pub retry_reason : Option String
  pub created_at : ℕ
  pub updated_at : ℕ

-- InMemoryRetryRepository.save on the dictionary `_retry_records_by_job`
unfoldable pub save_record :
    {F : Type 0} → RetryRecord → Dict (List RetryRecord) → Attempt F (Dict (List RetryRecord))
save_record r d = elim r.migration_job_id [
  | none ↦ err (plain value_error "Retry records require a migration_job_id.")
  | some job ↦ ok (Dict.put job (or_else (Dict.get job d) [] ++ r ∷ []) d)
]

-- InMemoryRetryRepository.list_for_job
unfoldable pub list_for_job : String → Dict (List RetryRecord) → List RetryRecord
list_for_job job d = or_else (Dict.get job d) []
