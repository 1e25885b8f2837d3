-- ===== src/Worker/Retry.antt =====
-- gateway-worker/src/queue/retry-policy.ts. The random number that `Math.random()` would draw is
-- an argument.
pub mod Bounds
use fincart_assissment.Common.{ℕ, ◌-◌, Bool, true, false, Option, none, some, ltb, if◌then◌else◌}
use fincart_assissment.Contracts.{ErrorClassification, transient, permanent}
use fincart_assissment.Worker.Number.{of_ℕ}
use fincart_assissment.Worker.Number.Double.{
  Number, whole, plus, times, percent, power, minimum, maximum, rounded,
}

pub record RetryPolicyConfig : Type 0 where
  pub base_ms : Number
  pub multiplier : Number
  pub jitter_percent : Number
  pub max_attempts : ℕ

unfoldable pub max_ℕ : ℕ → ℕ → ℕ
max_ℕ a b = if ltb a b then b else a

-- `randomFactor ?? Math.random()`.
unfoldable pub factor_or : Option Number → Number → Number
factor_or none drawn = drawn
factor_or (some r) drawn = r

unfoldable pub base_delay : ℕ → RetryPolicyConfig → Number
unfolding max_ℕ
base_delay attempt config = times config.base_ms (power config.multiplier (max_ℕ 1 attempt - 1))

unfoldable pub bounded_random : Option Number → Number → Number
unfolding factor_or
bounded_random random_factor drawn =
    minimum (whole 1) (maximum (whole 0) (factor_or random_factor drawn))

-- The delay once the attempt is within the maximum.
unfoldable pub delay_of : ℕ → RetryPolicyConfig → Option Number → Number → Number
delay_of attempt config random_factor drawn =
    let base = base_delay attempt config in
    let jitter =
      times (times base (percent config.jitter_percent)) (bounded_random random_factor drawn) in
    maximum (whole 0) (rounded (plus base jitter))

-- `none` is `null`.
unfoldable pub calculate_backoff_delay :
    ℕ → RetryPolicyConfig → Option Number → Number → Option Number
calculate_backoff_delay attempt config random_factor drawn =
    if ltb config.max_attempts attempt
    then none
    else some (delay_of attempt config random_factor drawn)

unfoldable pub should_retry : ℕ → ℕ → ErrorClassification → Bool
should_retry attempt max_attempts permanent = false
should_retry attempt max_attempts transient = ltb attempt max_attempts
