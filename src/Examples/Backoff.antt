-- ===== src/Examples/Backoff.antt =====
-- gateway-worker/src/queue/retry-policy.ts on the second attempt under the default policy, with a random
-- factor below 0.
use fincart_assissment.Common.{
  ℕ, zero, suc, ◌≤◌, ◌<◌, ◌≡◌, refl, ◌⊎◌, true, false, none, some, ltb→lt, arith,
}
use fincart_assissment.Worker.Number.{of_ℕ, add, mul, over, pow, le_num, round}
use fincart_assissment.Worker.Number.Double.{
  nan, infinite, finite, fits, fit, whole, overflow_from, plus, times, percent, power, minimum,
  maximum, at_most, rounded,
}
use fincart_assissment.Worker.Number.Double.Laws.{Fits}
use fincart_assissment.Worker.Retry.{
  RetryPolicyConfig, factor_or, max_ℕ, base_delay, bounded_random, delay_of,
  calculate_backoff_delay,
}
use fincart_assissment.Worker.Retry.Bounds.{exact_base, calculate_backoff_delay_bounds}
use fincart_assissment.Examples.Delivery.{policy}

pub small_powers : (k : ℕ) → k ≤ 1 → Fits (pow (of_ℕ 2) k)
unfolding overflow_from pow mul of_ℕ
small_powers zero h = ltb→lt _ _ refl
small_powers (suc zero) h = ltb→lt _ _ refl
small_powers (suc (suc k)) h = absurd (omega arith)

small_total : Fits (
    add
      (exact_base (of_ℕ 1000) (of_ℕ 2) 2)
      (mul (exact_base (of_ℕ 1000) (of_ℕ 2) 2) (over (of_ℕ 20) 100)))
unfolding overflow_from pow mul of_ℕ add over
small_total = ltb→lt _ _ refl

calculate_backoff_delay_bounds_example :
    ((5 < 2) × (calculate_backoff_delay 2 policy (some (finite true (of_ℕ 3))) (whole 0) ≡ none))
    ⊎ ((delay : ℕ) × (calculate_backoff_delay 2 policy (some (finite true (of_ℕ 3))) (whole 0)
          ≡ some (whole delay))
        × (round (exact_base (of_ℕ 1000) (of_ℕ 2) 2) ≤ delay)
        × (delay
            ≤ round (
                add
                  (exact_base (of_ℕ 1000) (of_ℕ 2) 2)
                  (mul (exact_base (of_ℕ 1000) (of_ℕ 2) 2) (over (of_ℕ 20) 100)))))
unfolding of_ℕ factor_or
calculate_backoff_delay_bounds_example =
    calculate_backoff_delay_bounds 2 policy (of_ℕ 1000) (of_ℕ 2) (of_ℕ 20) refl refl refl
      (omega arith) (omega arith) (omega arith) small_powers small_total
      (some (finite true (of_ℕ 3))) (whole 0) (omega arith)

-- The policy with an infinite multiplier, which gateway-worker/src/config/env.ts accepts.
abbrev unbounded : RetryPolicyConfig
unbounded = record policy { multiplier = infinite false }

infinite_delay : calculate_backoff_delay 2 unbounded none (whole 1) ≡ some (infinite false)
unfolding calculate_backoff_delay delay_of base_delay bounded_random factor_or max_ℕ plus times
    percent power minimum maximum at_most rounded fit fits overflow_from of_ℕ mul over le_num
infinite_delay = refl

nan_delay : calculate_backoff_delay 2 unbounded none (whole 0) ≡ some nan
unfolding calculate_backoff_delay delay_of base_delay bounded_random factor_or max_ℕ plus times
    percent power minimum maximum at_most rounded fit fits overflow_from of_ℕ mul over le_num
nan_delay = refl
