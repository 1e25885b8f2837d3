-- ===== src/Service/Environment/Accepted.antt =====
-- What holds of the environment of a service that starts (gateway-worker/src/config/env.ts,
-- gateway-api/src/config/env.ts).
use fincart_assissment.Common.{
  ℕ, ◌*◌, ◌-◌, ◌≤◌, ◌≡◌, refl, sym, false, inl, inr, Option, none, some, arith,
}
use mathlib.Core.Path.{subst}
use mathlib.Core.Option.{some-injective}
use fincart_assissment.Common.Chain.{bind-eq-some}
use fincart_assissment.Common.Text.{Str, text}
use fincart_assissment.Worker.Number.{Num, IsNum, of_ℕ, add, mul, over, pow, round}
use fincart_assissment.Worker.Number.Double.{Number, finite, whole}
use fincart_assissment.Worker.Number.Double.Laws.{Fits, Fits-below, IsNumber}
use fincart_assissment.Worker.Retry.{factor_or, calculate_backoff_delay}
use fincart_assissment.Worker.Retry.Bounds.{
  exact_base, exact_base-IsNum, calculate_backoff_delay_bounds,
}
use fincart_assissment.Worker.Number.Laws.{
  round_mono, add_mono, mul-le_self, add-IsNum, mul-IsNum, over-IsNum,
}
use fincart_assissment.Service.Environment.{
  EnvSchemas, IsPositive, IsEnvSchemas, default, name_var, node_env_var, log_level_var,
  redis_url_var, mongo_uri_var, mongo_db_name_var, WorkerEnv, load_worker_env, retry_config,
}

-- The ranges of the numbers of a worker.
pub record IsWorkerEnv (e : WorkerEnv) : Type 0 where
  pub concurrency : 1 ≤ e.worker_concurrency
  pub drain_timeout : 1 ≤ e.worker_drain_timeout_ms
  pub attempts : 1 ≤ e.retry_max_attempts
  pub base : 1 ≤ e.retry_backoff_base_ms
  pub multiplier : IsPositive e.retry_backoff_multiplier
  pub jitter :
      (a : Num) × (e.retry_jitter_percent ≡ finite false a) × IsNum a × (a.top ≤ 100 * a.bottom)

module _ (z : EnvSchemas) (h : IsEnvSchemas z) where
  from_one :
      (fallback n : ℕ) (v : Option Str)
      → 1 ≤ fallback
      → default (z.int_from 1) fallback v ≡ some n
      → 1 ≤ n
  from_one fallback n none k e = let same : fallback ≡ n = cc in omega arith
  from_one fallback n (some s) k e = h.from 1 n s e

  multiplier_above :
      (x : Number) (v : Option Str) → default z.positive (whole 2) v ≡ some x → IsPositive x
  unfolding of_ℕ
  multiplier_above x none e =
      let same : whole 2 ≡ x = some-injective _ _ e in
      inr (of_ℕ 2, sym same, omega arith, omega arith)
  multiplier_above x (some s) e = h.above x s e

  jitter_inside :
      (x : Number) (v : Option Str)
      → default (z.between 0 100) (whole 20) v ≡ some x
      → (a : Num) × (x ≡ finite false a) × IsNum a × (a.top ≤ 100 * a.bottom)
  unfolding of_ℕ
  jitter_inside x none e =
      let same : whole 20 ≡ x = some-injective _ _ e in
      (of_ℕ 20, sym same, omega arith, omega arith)
  jitter_inside x (some s) e =
      let (a, is_a, num, low, high) = h.inside 0 100 x s e in (a, is_a, num, high)

  load_worker_env-IsWorkerEnv :
      (env : Str → Option Str) (e : WorkerEnv) → load_worker_env z env ≡ some e → IsWorkerEnv e
  unfolding load_worker_env
  load_worker_env-IsWorkerEnv env e loaded =
      bind-eq-some (name_var z env (text "gateway-worker")) _ loaded λ name _ h₁.
        bind-eq-some (node_env_var z env) _ h₁ λ node _ h₂.
          bind-eq-some (log_level_var z env) _ h₂ λ level _ h₃.
            bind-eq-some (redis_url_var z env) _ h₃ λ redis _ h₄.
              bind-eq-some (mongo_uri_var z env) _ h₄ λ mongo _ h₅.
                bind-eq-some (mongo_db_name_var z env) _ h₅ λ db _ h₆.
                  bind-eq-some (default (z.int_from 1) 10 (env (text "WORKER_CONCURRENCY"))) _ h₆
                    λ c ec h₇.
                      bind-eq-some
                        (default (z.int_from 1) 15000 (env (text "WORKER_DRAIN_TIMEOUT_MS"))) _ h₇
                        λ d ed h₈.
                          bind-eq-some (default (z.int_from 1) 5 (env (text "RETRY_MAX_ATTEMPTS")))
                            _ h₈
                            λ m em h₉.
                              bind-eq-some
                                (default (z.int_from 1) 1000 (env (text "RETRY_BACKOFF_BASE_MS"))) _
                                h₉
                                λ b eb g₁.
                                  bind-eq-some
                                    (default z.positive (whole 2)
                                      (env (text "RETRY_BACKOFF_MULTIPLIER")))
                                    _ g₁
                                    λ x ex g₂.
                                      bind-eq-some
                                        (default (z.between 0 100) (whole 20)
                                          (env (text "RETRY_JITTER_PERCENT")))
                                        _ g₂
                                        λ j ej g₃.
                                          subst IsWorkerEnv (some-injective _ _ g₃) (record {
                                            concurrency = from_one 10 c _ (omega arith) ec;
                                            drain_timeout = from_one 15000 d _ (omega arith) ed;
                                            attempts = from_one 5 m _ (omega arith) em;
                                            base = from_one 1000 b _ (omega arith) eb;
                                            multiplier = multiplier_above x _ ex;
                                            jitter = jitter_inside j _ ej;
                                          })

whole-IsNum : (n : ℕ) → IsNum (of_ℕ n)
unfolding of_ℕ
whole-IsNum n = omega arith

percent-le : (a : Num) → a.top ≤ 100 * a.bottom → (over a 100).top ≤ (over a 100).bottom
unfolding over
percent-le a h = omega arith

-- Zod's schemas being as documented, let an environment be accepted, let its multiplier be finite, and
-- let the powers of the multiplier up to the attempt's and twice the base delay be small enough for a
-- double. Then each attempt within the maximum has a delay in whole milliseconds, at least the base
-- delay `base * multiplier ^ (attempt - 1)` and at most twice it, each rounded, whatever number is drawn.
pub load_worker_env-delays :
    (z : EnvSchemas)
    → IsEnvSchemas z
    → (env : Str → Option Str) (e : WorkerEnv) → load_worker_env z env ≡ some e
    → (multiplier : Num) → IsNum multiplier
    → e.retry_backoff_multiplier ≡ finite false multiplier
    → (attempt : ℕ) (drawn : Number) → attempt ≤ e.retry_max_attempts
    → IsNumber drawn
    → ((k : ℕ) → k ≤ attempt - 1 → Fits (pow multiplier k))
    → Fits (
        add
          (exact_base (of_ℕ e.retry_backoff_base_ms) multiplier attempt)
          (exact_base (of_ℕ e.retry_backoff_base_ms) multiplier attempt))
    → (delay : ℕ) × ((calculate_backoff_delay attempt (retry_config e) none drawn
          ≡ some (whole delay))
        × (round (exact_base (of_ℕ e.retry_backoff_base_ms) multiplier attempt) ≤ delay)
        × (delay
            ≤ round (
                add
                  (exact_base (of_ℕ e.retry_backoff_base_ms) multiplier attempt)
                  (exact_base (of_ℕ e.retry_backoff_base_ms) multiplier attempt))))
unfolding retry_config factor_or
load_worker_env-delays z h env e loaded multiplier multiplier_num given attempt drawn within num
      small_powers small =
    let ranges = load_worker_env-IsWorkerEnv z h env e loaded in
    let (jitter, jitter_given, jitter_num, jitter_high) = ranges.jitter in
    let base = exact_base (of_ℕ e.retry_backoff_base_ms) multiplier attempt in
    let base_num =
      exact_base-IsNum (of_ℕ e.retry_backoff_base_ms) multiplier attempt (whole-IsNum _)
        multiplier_num in
    let full = mul base (over jitter 100) in
    let full_num =
      mul-IsNum base (over jitter 100) base_num (over-IsNum jitter 100 jitter_num (omega arith)) in
    let full-le = mul-le_self base (over jitter 100) (percent-le jitter jitter_high) in
    let sum-le = add_mono base full base full-le in
    let sum_num = add-IsNum base full base_num full_num in
    let twice_num = add-IsNum base base base_num base_num in
    elim (calculate_backoff_delay_bounds attempt (retry_config e) (of_ℕ e.retry_backoff_base_ms)
      multiplier jitter refl given jitter_given (whole-IsNum _) multiplier_num jitter_num
      small_powers (Fits-below (add base full) (add base base) sum_num twice_num sum-le small) none
      drawn num) [
        | inl (past, _) ↦ absurd (omega arith)
        | inr (delay, found, low, high) ↦ (
          delay,
          (
            found,
            low,
            omega
                (arith, high, round_mono (add base full) (add base base) sum_num twice_num sum-le),
          ),
        )
      ]
