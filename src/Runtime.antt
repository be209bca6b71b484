-- ===== src/Runtime.antt =====
-- What the program takes from Python's runtime and does not implement: floating-point seconds, the
-- rendering of a value in a message, UUIDs of names and SHA-256. An argument of what uses it.
use enterprise_vault_migrati.Prelude.{ℕ, ◌-◌, String, Bool, Option, List, leb, if◌then◌else◌}

-- `F` is the type `float`. A point in time and a `timedelta` are whole microseconds.
pub record Runtime (F : Type 0) : Type 0 where
  -- 0.0 and 1.0
  pub zero_float : F
  pub one_float : F
  -- a < b
  pub float_lt : F → F → Bool
  -- a * b, and a ** n; none where that raises an OverflowError
  pub times : F → F → F
  pub power : F → ℕ → Option F
  -- timedelta.total_seconds() of a length of time that is not negative
  pub total_seconds : ℕ → F
  -- n / m and n / seconds
  pub quotient : ℕ → ℕ → F
  pub rate : ℕ → F → F
  -- timedelta(seconds=1.0 / requests_per_second)
  pub interval : F → ℕ
  -- f"{x:.3f}", f"{x:.6f}" and what rstrip("0").rstrip(".") leaves of that
  pub fixed_3 : F → String
  pub fixed_6 : F → String
  pub strip_zeros : String → String
  -- f"{s!r}", str(n) and datetime.isoformat()
  pub repr : String → String
  pub decimal : ℕ → String
  pub isoformat : ℕ → String
  -- str(uuid5(NAMESPACE_URL, name))
  pub uuid_of_name : String → String
  -- text.title()
  pub title : String → String
  -- hashlib.sha256(data).hexdigest(), and text.encode("utf-8"); none where that raises a
  -- UnicodeEncodeError
  pub sha256 : List ℕ → String
  pub utf_8 : String → Option (List ℕ)

module _ {F : Type 0} (rt : Runtime F) where
  open rt use {zero_float, float_lt}

  -- max(a, b) and min(a, b) on floats, as Python compares them
  unfoldable pub float_max : F → F → F
  float_max a b = elim (float_lt a b) [ Bool.true ↦ b | Bool.false ↦ a ]

  unfoldable pub float_min : F → F → F
  float_min a b = elim (float_lt b a) [ Bool.true ↦ b | Bool.false ↦ a ]

  -- max((finished - started).total_seconds(), 0.0)
  unfoldable pub elapsed : ℕ → ℕ → F
  elapsed started finished =
      if leb started finished
      then float_max (rt.total_seconds (finished - started)) zero_float
      else zero_float

  -- `items / seconds if seconds > 0.0 else 0.0`
  unfoldable pub items_per_second : ℕ → F → F
  items_per_second items seconds =
      if float_lt zero_float seconds then rt.rate items seconds else zero_float
