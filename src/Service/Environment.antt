-- ===== src/Service/Environment.antt =====
-- gateway-worker/src/config/env.ts and gateway-api/src/config/env.ts: the environment variables, and
-- what gateway-worker/src/main.ts makes of them. Zod's schemas of one text are a parameter, the
-- objects of them and the defaults are written out. The text of the error is left out.
pub mod Accepted
pub mod Gateway
use fincart_assissment.Common.{
  ℕ, ◌+◌, ◌*◌, ◌≤◌, ◌<◌, ◌≡◌, ◌⊎◌, Bool, true, false, Option, none, some, List, [], ◌∷◌,
  if◌then◌else◌,
}
use fincart_assissment.Common.Chain.{◌>>=◌}
use fincart_assissment.Common.Text.{Str, text, str_eq, trim, is_blank}
use fincart_assissment.Worker.Number.{Num, IsNum}
use fincart_assissment.Worker.Number.Double.{Number, infinite, finite, whole}
use fincart_assissment.Worker.Retry.{RetryPolicyConfig}

pub data NodeEnv : Type 0 where
  development test production : NodeEnv

pub data LogLevel : Type 0 where
  fatal error warn info debug trace silent : LogLevel

-- `z.string().trim().min(1)`, `z.string().url()`, `z.coerce.number().int().min(low)` and with
-- `.max(high)`, `z.coerce.number().positive()`, `z.coerce.number().min(low).max(high)`; `none` is an
-- issue.
pub record EnvSchemas : Type 0 where
  pub nonempty_text : Str → Option Str
  pub url : Str → Option Str
  pub int_from : ℕ → Str → Option ℕ
  pub int_between : ℕ → ℕ → Str → Option ℕ
  pub positive : Str → Option Number
  pub between : ℕ → ℕ → Str → Option Number

-- A number above 0, which may be Infinity.
abbrev pub IsPositive : Number → Type 0
IsPositive x = (x ≡ infinite false) ⊎ ((a : Num) × (x ≡ finite false a) × IsNum a × (0 < a.top))

-- What is relied on: a value that passes is a number in the range.
pub record IsEnvSchemas (z : EnvSchemas) : Type 0 where
  pub trims : (s t : Str) → z.nonempty_text s ≡ some t → (is_blank s ≡ false) × (t ≡ trim s)
  pub from : (low n : ℕ) (s : Str) → z.int_from low s ≡ some n → low ≤ n
  pub within :
      (low high n : ℕ) (s : Str) → z.int_between low high s ≡ some n → (low ≤ n) × (n ≤ high)
  pub above : (x : Number) (s : Str) → z.positive s ≡ some x → IsPositive x
  pub inside :
      (low high : ℕ) (x : Number) (s : Str)
      → z.between low high s ≡ some x
      → (a : Num) × (x ≡ finite false a)
        × IsNum a
        × (low * a.bottom ≤ a.top)
        × (a.top ≤ high * a.bottom)

-- `z.enum`, which compares the text with the words.
unfoldable pub node_env : Str → Option NodeEnv
unfolding str_eq
node_env s =
    if str_eq s (text "development")
    then some development
    else if str_eq s (text "test")
    then some test
    else if str_eq s (text "production")
    then some production
    else none

unfoldable pub log_level : Str → Option LogLevel
unfolding str_eq
log_level s =
    if str_eq s (text "fatal")
    then some fatal
    else if str_eq s (text "error")
    then some error
    else if str_eq s (text "warn")
    then some warn
    else if str_eq s (text "info")
    then some info
    else if str_eq s (text "debug")
    then some debug
    else if str_eq s (text "trace")
    then some trace
    else if str_eq s (text "silent")
    then some silent
    else none

-- `schema.default(value)`: an absent variable is `undefined`.
abbrev pub default : {A : Type 0} → (Str → Option A) → A → Option Str → Option A
default schema value none = some value
default schema value (some s) = schema s

abbrev pub required : {A : Type 0} → (Str → Option A) → Option Str → Option A
required schema none = none
required schema (some s) = schema s

pub record WorkerEnv : Type 0 where
  pub service_name : Str
  pub node_env : NodeEnv
  pub log_level : LogLevel
  pub redis_url : Str
  pub mongo_uri : Str
  pub mongo_db_name : Str
  pub worker_concurrency : ℕ
  pub worker_drain_timeout_ms : ℕ
  pub retry_max_attempts : ℕ
  pub retry_backoff_base_ms : ℕ
  pub retry_backoff_multiplier : Number
  pub retry_jitter_percent : Number

pub record ApiEnv : Type 0 where
  pub service_name : Str
  pub node_env : NodeEnv
  pub log_level : LogLevel
  pub api_port : ℕ
  pub signing_secret : Str
  pub signature_tolerance_seconds : ℕ
  pub redis_url : Str
  pub mongo_uri : Str
  pub mongo_db_name : Str

module _ (z : EnvSchemas) (env : Str → Option Str) where
  abbrev name_var : Str → Option Str
  name_var fallback = default z.nonempty_text fallback (env (text "SERVICE_NAME"))

  abbrev node_env_var : Option NodeEnv
  node_env_var = default node_env development (env (text "NODE_ENV"))

  abbrev log_level_var : Option LogLevel
  log_level_var = default log_level info (env (text "LOG_LEVEL"))

  abbrev pub redis_url_var : Option Str
  redis_url_var = default z.url (text "redis://localhost:6379") (env (text "REDIS_URL"))

  abbrev pub mongo_uri_var : Option Str
  mongo_uri_var = default z.url (text "mongodb://localhost:27017") (env (text "MONGO_URI"))

  abbrev pub mongo_db_name_var : Option Str
  mongo_db_name_var = default z.nonempty_text (text "fincart_gateway") (env (text "MONGO_DB_NAME"))

  -- `none` is the error with the issues.
  unfoldable pub load_worker_env : Option WorkerEnv
  unfolding node_env log_level
  load_worker_env = do
    service_name ← name_var (text "gateway-worker")
    node ← node_env_var
    level ← log_level_var
    redis_url ← redis_url_var
    mongo_uri ← mongo_uri_var
    mongo_db_name ← mongo_db_name_var
    concurrency ← default (z.int_from 1) 10 (env (text "WORKER_CONCURRENCY"))
    drain_timeout_ms ← default (z.int_from 1) 15000 (env (text "WORKER_DRAIN_TIMEOUT_MS"))
    max_attempts ← default (z.int_from 1) 5 (env (text "RETRY_MAX_ATTEMPTS"))
    base_ms ← default (z.int_from 1) 1000 (env (text "RETRY_BACKOFF_BASE_MS"))
    multiplier ← default z.positive (whole 2) (env (text "RETRY_BACKOFF_MULTIPLIER"))
    jitter_percent ← default (z.between 0 100) (whole 20) (env (text "RETRY_JITTER_PERCENT"))
    some (record {
      service_name = service_name;
      node_env = node;
      log_level = level;
      redis_url = redis_url;
      mongo_uri = mongo_uri;
      mongo_db_name = mongo_db_name;
      worker_concurrency = concurrency;
      worker_drain_timeout_ms = drain_timeout_ms;
      retry_max_attempts = max_attempts;
      retry_backoff_base_ms = base_ms;
      retry_backoff_multiplier = multiplier;
      retry_jitter_percent = jitter_percent;
    })

  unfoldable pub load_api_env : Option ApiEnv
  unfolding node_env log_level
  load_api_env = do
    service_name ← name_var (text "gateway-api")
    node ← node_env_var
    level ← log_level_var
    port ← default (z.int_between 1 65535) 3000 (env (text "API_PORT"))
    secret ← required z.nonempty_text (env (text "SIGNING_SECRET"))
    tolerance ← default (z.int_from 1) 300 (env (text "SIGNATURE_TOLERANCE_SECONDS"))
    redis_url ← redis_url_var
    mongo_uri ← mongo_uri_var
    mongo_db_name ← mongo_db_name_var
    some (record {
      service_name = service_name;
      node_env = node;
      log_level = level;
      api_port = port;
      signing_secret = secret;
      signature_tolerance_seconds = tolerance;
      redis_url = redis_url;
      mongo_uri = mongo_uri;
      mongo_db_name = mongo_db_name;
    })

-- The retry policy of the worker.
unfoldable pub retry_config : WorkerEnv → RetryPolicyConfig
retry_config env = record {
  base_ms = whole env.retry_backoff_base_ms;
  multiplier = env.retry_backoff_multiplier;
  jitter_percent = env.retry_jitter_percent;
  max_attempts = env.retry_max_attempts;
}
