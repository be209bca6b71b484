-- ===== src/Target/RateLimiter.antt =====
-- src/mock_storionx/services/upload_rate_limiter.py. One call is one step under the lock, and reads
-- the clock once; times are in microseconds.
pub mod Spacing
use enterprise_vault_migrati.Prelude.{
  ℕ, ◌+◌, ◌-◌, Bool, true, false, Option, none, some, [], if◌then◌else◌, leb,
}
use enterprise_vault_migrati.Runtime.{Runtime, float_max}
use enterprise_vault_migrati.Errors.{ok, err, Attempt, plain, value_error}
use enterprise_vault_migrati.Contracts.{not_positive}

pub record UploadRateLimiter (F : Type 0) : Type 0 where
  pub requests_per_second : Option F
  pub next_available_at : Option ℕ

module _ {F : Type 0} (rt : Runtime F) where
  -- UploadRateLimiter(requests_per_second=…), with __post_init__
  unfoldable pub new_limiter : Option F → Attempt F (UploadRateLimiter F)
  new_limiter requests_per_second =
      if not_positive rt requests_per_second
      then err (plain value_error "requests_per_second must be greater than 0 when configured.")
      else ok (record { requests_per_second = requests_per_second; next_available_at = none })

  -- the block under the lock
  schedule : UploadRateLimiter F → ℕ → ℕ → Option ℕ → F × UploadRateLimiter F
  schedule l interval now none =
      (rt.zero_float, record l { next_available_at = some (now + interval) })
  schedule l interval now (some next) =
      if leb next now
      then (rt.zero_float, record l { next_available_at = some (now + interval) })
      else (
        float_max rt (rt.total_seconds (next - now)) rt.zero_float,
        record l { next_available_at = some (next + interval) },
      )

  -- acquire_delay_seconds
  unfoldable pub acquire_delay_seconds : UploadRateLimiter F → ℕ → F × UploadRateLimiter F
  unfolding schedule
  acquire_delay_seconds l now = elim l.requests_per_second [
    | none ↦ (rt.zero_float, l)
    | some r ↦ schedule l (rt.interval r) now l.next_available_at
  ]

  -- The adapter admits a request exactly if no delay is asked for.
  unfoldable pub admitted : UploadRateLimiter F → ℕ → Bool
  unfolding acquire_delay_seconds
  admitted l now = if rt.float_lt rt.zero_float (acquire_delay_seconds l now).0 then false else true
