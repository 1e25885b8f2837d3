-- ===== src/Examples/Environments.antt =====
-- gateway-worker/src/config/env.ts with two variables set.
use fincart_assissment.Common.{
  ℕ, ◌*◌, ◌≤◌, ◌≡◌, ltb→lt, refl, sym, inl, inr, false, Bool-cases, Option, none, some, leb,
  if◌then◌else◌, arith,
}
use mathlib.Core.Option.{some-injective}
use fincart_assissment.Common.Text.{Str, text, str_eq, trim, is_blank}
use fincart_assissment.Common.Parse.{ℤ, pos, negsuc, parse_int, parse_digits, digits_from}
use fincart_assissment.Common.Text.{trim_start, is_space}
use fincart_assissment.Worker.Number.{Num, IsNum, of_ℕ, add, mul, pow, round}
use fincart_assissment.Worker.Number.Double.{Number, finite, whole, overflow_from}
use fincart_assissment.Worker.Number.Double.Laws.{Fits}
use fincart_assissment.Worker.Retry.{calculate_backoff_delay}
use fincart_assissment.Worker.Retry.Bounds.{exact_base}
use fincart_assissment.Examples.Backoff.{small_powers}
use fincart_assissment.Service.Environment.{
  EnvSchemas, IsPositive, IsEnvSchemas, WorkerEnv, development, info, load_worker_env, retry_config,
}
use fincart_assissment.Service.Environment.Accepted.{load_worker_env-delays}

unfoldable pub in_range : ℕ → ℕ → Option ℤ → Option ℕ
in_range low high (some (pos n)) = if leb low n then (if leb n high then some n else none) else none
in_range low high (some (negsuc n)) = none
in_range low high none = none

in_range-some :
    (low high n : ℕ) (o : Option ℤ) → in_range low high o ≡ some n → (low ≤ n) × (n ≤ high)
unfolding in_range
in_range-some low high n (some (pos m)) e = ground arith
in_range-some low high n (some (negsuc m)) e = absurd (cc)
in_range-some low high n none e = absurd (cc)

unfoldable pub as_number : Option ℕ → Option Number
as_number none = none
as_number (some n) = some (whole n)

as_number-some :
    (o : Option ℕ) (x : Number) → as_number o ≡ some x → (n : ℕ) × (o ≡ some n) × (x ≡ whole n)
unfolding as_number
as_number-some none x e = absurd (cc)
as_number-some (some n) x e = (n, refl, sym (some-injective _ _ e))

unfoldable pub nonblank : Str → Option Str
nonblank s = if is_blank s then none else some (trim s)

abbrev pub most : ℕ
most = 9007199254740991

abbrev pub schemas : EnvSchemas
schemas = record {
  nonempty_text = nonblank;
  url = λ s. some s;
  int_from = λ low s. in_range low most (parse_int s);
  int_between = λ low high s. in_range low high (parse_int s);
  positive = λ s. as_number (in_range 1 most (parse_int s));
  between = λ low high s. as_number (in_range low high (parse_int s));
}

nonblank-some : (s t : Str) → nonblank s ≡ some t → (is_blank s ≡ false) × (t ≡ trim s)
unfolding nonblank
nonblank-some s t e = elim (Bool-cases (is_blank s)) [
  | inl blank ↦ absurd (let clash = rw (nonblank, blank) at e in cc)
  | inr fine ↦
      let same : some (trim s) ≡ some t = rw (nonblank, fine) at e in
      (fine, sym (some-injective _ _ same))
]

above_zero :
    (x : Number) (s : Str) → as_number (in_range 1 most (parse_int s)) ≡ some x → IsPositive x
unfolding of_ℕ
above_zero x s e =
    let (n, found, same) = as_number-some (in_range 1 most (parse_int s)) x e in
    let (low, high) = in_range-some 1 most n (parse_int s) found in
    inr (of_ℕ n, same, omega arith, omega arith)

inside_range :
    (low high : ℕ) (x : Number) (s : Str)
    → as_number (in_range low high (parse_int s)) ≡ some x
    → (a : Num) × (x ≡ finite false a)
      × IsNum a
      × (low * a.bottom ≤ a.top)
      × (a.top ≤ high * a.bottom)
unfolding of_ℕ
inside_range low high x s e =
    let (n, found, same) = as_number-some (in_range low high (parse_int s)) x e in
    let (above, under) = in_range-some low high n (parse_int s) found in
    (of_ℕ n, same, omega arith, omega arith, omega arith)

pub schemas-IsEnvSchemas : IsEnvSchemas schemas
schemas-IsEnvSchemas = record {
  trims = λ s t e. nonblank-some s t e;
  from = λ low n s e. (in_range-some low most n (parse_int s) e).0;
  within = λ low high n s e. in_range-some low high n (parse_int s) e;
  above = λ x s e. above_zero x s e;
  inside = λ low high x s e. inside_range low high x s e;
}

abbrev variables : Str → Option Str
variables key =
    if str_eq key (text "RETRY_MAX_ATTEMPTS")
    then some (text "3")
    else if str_eq key (text "RETRY_JITTER_PERCENT")
    then some (text "10")
    else none

abbrev env : WorkerEnv
env = record {
  service_name = text "gateway-worker";
  node_env = development;
  log_level = info;
  redis_url = text "redis://localhost:6379";
  mongo_uri = text "mongodb://localhost:27017";
  mongo_db_name = text "fincart_gateway";
  worker_concurrency = 10;
  worker_drain_timeout_ms = 15000;
  retry_max_attempts = 3;
  retry_backoff_base_ms = 1000;
  retry_backoff_multiplier = whole 2;
  retry_jitter_percent = whole 10;
}

loaded : load_worker_env schemas variables ≡ some env
unfolding load_worker_env in_range as_number parse_int parse_digits digits_from trim_start is_space
    str_eq of_ℕ
loaded = refl

small_twice : Fits (add (exact_base (of_ℕ 1000) (of_ℕ 2) 2) (exact_base (of_ℕ 1000) (of_ℕ 2) 2))
unfolding overflow_from pow mul of_ℕ add
small_twice = ltb→lt _ _ refl

load_worker_env-delays_example :
    (delay : ℕ) × ((calculate_backoff_delay 2 (retry_config env) none (whole 0)
        ≡ some (whole delay))
      × (round (exact_base (of_ℕ 1000) (of_ℕ 2) 2) ≤ delay)
      × (delay
          ≤ round (add (exact_base (of_ℕ 1000) (of_ℕ 2) 2) (exact_base (of_ℕ 1000) (of_ℕ 2) 2))))
unfolding of_ℕ
load_worker_env-delays_example =
    load_worker_env-delays schemas schemas-IsEnvSchemas variables env loaded (of_ℕ 2) (omega arith)
      refl 2 (whole 0) (omega arith) (omega arith) small_powers small_twice
