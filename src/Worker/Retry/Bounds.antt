-- ===== src/Worker/Retry/Bounds.antt =====
-- retry-policy.ts: when a retry is allowed, and the bounds of the delay.
use fincart_assissment.Common.{
  ℕ, zero, suc, ◌-◌, ◌≤◌, ◌<◌, ◌≡◌, ◌⊎◌, inl, inr, Bool-cases, refl, ap, ◌∙◌, true, false, Option,
  none, some, ltb, arith, ltb-false→le, ltb→lt, ltb-false→le,
}
use fincart_assissment.Contracts.{ErrorClassification, transient, permanent}
use fincart_assissment.Worker.Retry.{
  RetryPolicyConfig, should_retry, calculate_backoff_delay, delay_of, max_ℕ, base_delay, factor_or,
  bounded_random,
}
use fincart_assissment.Worker.Number.{Num, IsNum, of_ℕ, add, mul, over, pow, le_num, ◌⊑◌, round}
use fincart_assissment.Worker.Number.Laws.{
  round_mono, add-le, add-le_right, add_mono, mul-le_self, add-IsNum, mul-IsNum, over-IsNum,
}
use fincart_assissment.Worker.Number.Double.{
  Number, finite, whole, plus, times, percent, at_most, maximum, rounded,
}
use fincart_assissment.Worker.Number.Double.Laws.{
  Fits, Fits-below, times-exact, plus-exact, power-exact, IsNumber, clamped-IsShare,
}
use native.Mathlib.Nat.{mul-pos}

pub should_retry-lt :
    (attempt max_attempts : ℕ) (c : ErrorClassification)
    → should_retry attempt max_attempts c ≡ true
    → attempt < max_attempts
unfolding should_retry
should_retry-lt attempt max_attempts permanent h = cc
should_retry-lt attempt max_attempts transient h = ltb→lt _ _ h

-- There is no delay exactly when the attempt is past the maximum.
pub calculate_backoff_delay_lem :
    (attempt : ℕ) (config : RetryPolicyConfig) (random_factor : Option Number) (drawn : Number)
    → attempt ≤ config.max_attempts
    → calculate_backoff_delay attempt config random_factor drawn
      ≡ some (delay_of attempt config random_factor drawn)
unfolding calculate_backoff_delay
calculate_backoff_delay_lem attempt config random_factor drawn h = ground arith

pow-IsNum : (a : Num) (n : ℕ) → IsNum a → IsNum (pow a n)
unfolding pow mul of_ℕ
pow-IsNum a zero h = omega arith
pow-IsNum a (suc n) h = mul-pos (pow-IsNum a n h) h

no_delay :
    (attempt : ℕ) (config : RetryPolicyConfig) (random_factor : Option Number) (drawn : Number)
    → ltb config.max_attempts attempt ≡ true
    → calculate_backoff_delay attempt config random_factor drawn ≡ none
unfolding calculate_backoff_delay
no_delay attempt config random_factor drawn h = rw h refl

-- The steps of the exact computation, for a base delay and a jitter that are not negative.
module _ (base jitter : Num) (base_num : IsNum base) (jitter_num : IsNum jitter)
    (small : Fits (add base (mul base (over jitter 100)))) where
  abbrev full : Num
  full = mul base (over jitter 100)

  full-IsNum : IsNum full
  full-IsNum =
      mul-IsNum base (over jitter 100) base_num (over-IsNum jitter 100 jitter_num (omega arith))

  module _ (share : Num) (share_num : IsNum share) (at_most_one : share.top ≤ share.bottom) where
    abbrev part : Num
    part = mul full share

    part-IsNum : IsNum part
    part-IsNum = mul-IsNum full share full-IsNum share_num

    part-le : part ⊑ full
    part-le = mul-le_self full share at_most_one

    full-Fits : Fits full
    full-Fits =
        Fits-below full (add base full) full-IsNum (add-IsNum base full base_num full-IsNum)
          (add-le_right base full) small

    sum-le : add base part ⊑ add base full
    sum-le = add_mono base part full part-le

    sum-IsNum : IsNum (add base part)
    sum-IsNum = add-IsNum base part base_num part-IsNum

    sum-exact :
        plus
          (finite false base)
          (times (times (finite false base) (percent (finite false jitter))) (finite false share))
        ≡ finite false (add base part)
    unfolding percent
    sum-exact =
        ap (λ x. plus (finite false base) (times x (finite false share)))
          (times-exact base (over jitter 100) full-Fits)
        ∙ ap (plus (finite false base))
            (times-exact full share (Fits-below part full part-IsNum full-IsNum part-le full-Fits))
        ∙ plus-exact base part (
            Fits-below (add base part) (add base full) sum-IsNum
              (add-IsNum base full base_num full-IsNum) sum-le small)

-- A delay is not negative.
not_negative : (n : ℕ) → maximum (whole 0) (whole n) ≡ whole n
unfolding maximum at_most le_num of_ℕ
not_negative n = ground arith

exponent : (n : ℕ) → max_ℕ 1 n - 1 ≡ n - 1
unfolding max_ℕ
exponent n = ground arith

-- The base delay of an attempt, exactly.
abbrev pub exact_base : Num → Num → ℕ → Num
exact_base base multiplier attempt = mul base (pow multiplier (attempt - 1))

pub exact_base-IsNum :
    (base multiplier : Num) (attempt : ℕ)
    → IsNum base
    → IsNum multiplier
    → IsNum (exact_base base multiplier attempt)
exact_base-IsNum base multiplier attempt h k =
    mul-IsNum base (pow multiplier (attempt - 1)) h (pow-IsNum multiplier (attempt - 1) k)

module _ (attempt : ℕ) (config : RetryPolicyConfig) (base multiplier jitter : Num)
    (base_given : config.base_ms ≡ finite false base)
    (multiplier_given : config.multiplier ≡ finite false multiplier)
    (jitter_given : config.jitter_percent ≡ finite false jitter) (base_num : IsNum base)
    (multiplier_num : IsNum multiplier) (jitter_num : IsNum jitter)
    (small_powers : (k : ℕ) → k ≤ attempt - 1 → Fits (pow multiplier k))
    (small : Fits (
      add
        (exact_base base multiplier attempt)
        (mul (exact_base base multiplier attempt) (over jitter 100)))) where
  abbrev exact : Num
  exact = exact_base base multiplier attempt

  exact-IsNum : IsNum exact
  exact-IsNum = exact_base-IsNum base multiplier attempt base_num multiplier_num

  exact-Fits : Fits exact
  exact-Fits =
      Fits-below exact (add exact (full exact jitter exact-IsNum jitter_num small)) exact-IsNum
        (add-IsNum exact (full exact jitter exact-IsNum jitter_num small) exact-IsNum
          (full-IsNum exact jitter exact-IsNum jitter_num small))
        (add-le exact (full exact jitter exact-IsNum jitter_num small)) small

  pub base_delay-exact : base_delay attempt config ≡ finite false exact
  unfolding base_delay
  base_delay-exact =
      let same_exponent : max_ℕ 1 attempt - 1 ≡ attempt - 1 = exponent attempt in
      rw
        (
          base_given,
          multiplier_given,
          same_exponent,
          power-exact multiplier (attempt - 1) small_powers,
        )
        (times-exact base (pow multiplier (attempt - 1)) exact-Fits)

  delay-exact :
      (random_factor : Option Number) (drawn : Number) (size : Num)
      → IsNum size
      → size.top ≤ size.bottom
      → bounded_random random_factor drawn ≡ finite false size
      → delay_of attempt config random_factor drawn
        ≡ whole (round (add exact (mul (mul exact (over jitter 100)) size)))
  unfolding delay_of rounded
  delay-exact random_factor drawn size size_num low same =
      rw
        (
          base_delay-exact,
          jitter_given,
          same,
          sum-exact exact jitter exact-IsNum jitter_num small size size_num low,
        )
        (not_negative (round (add exact (mul (mul exact (over jitter 100)) size))))

  -- Let the policy be of numbers that are neither negative nor infinite, and let the powers of the
  -- multiplier up to the attempt's and the delay with the full jitter be small enough for a double. Then an
  -- attempt past the maximum has no delay, and one within has a delay in whole milliseconds, at least
  -- the base delay `base * multiplier ^ (attempt - 1)` and at most that with the full jitter, each
  -- rounded, whatever the random factor is: negative, above 1 or infinite, as long as it is a number.
  pub calculate_backoff_delay_bounds :
      (random_factor : Option Number) (drawn : Number)
      → IsNumber (factor_or random_factor drawn)
      → ((config.max_attempts < attempt)
          × (calculate_backoff_delay attempt config random_factor drawn ≡ none))
        ⊎ ((delay : ℕ) × (calculate_backoff_delay attempt config random_factor drawn
              ≡ some (whole delay))
            × (round exact ≤ delay)
            × (delay ≤ round (add exact (mul exact (over jitter 100)))))
  unfolding bounded_random rounded
  calculate_backoff_delay_bounds random_factor drawn factor =
      elim (Bool-cases (ltb config.max_attempts attempt)) [
        | inl past ↦ inl (ltb→lt _ _ past, no_delay attempt config random_factor drawn past)
        | inr within ↦
            let share = clamped-IsShare (factor_or random_factor drawn) factor in
            let sum = add exact (mul (mul exact (over jitter 100)) share.size) in
            let total = add exact (mul exact (over jitter 100)) in
            inr (
              round sum,
              calculate_backoff_delay_lem attempt config random_factor drawn
                    (omega (arith, ltb-false→le _ _ within))
                  ∙ ap some (
                      delay-exact random_factor drawn share.size share.number share.at_most_one
                        share.same),
              round_mono exact sum exact-IsNum
                  (sum-IsNum exact jitter exact-IsNum jitter_num small share.size share.number
                    share.at_most_one)
                  (add-le exact (mul (mul exact (over jitter 100)) share.size)),
              round_mono sum total
                  (sum-IsNum exact jitter exact-IsNum jitter_num small share.size share.number
                    share.at_most_one)
                  (add-IsNum exact (mul exact (over jitter 100)) exact-IsNum
                    (full-IsNum exact jitter exact-IsNum jitter_num small))
                  (sum-le exact jitter exact-IsNum jitter_num small share.size share.number
                    share.at_most_one),
            )
      ]
