-- ===== src/LoadTest/Config.antt =====
-- scripts/load-test/run-load-test.ts (parseNumber, loadConfig): the environment of the load test.
use fincart_assissment.Common.{
  ℕ, zero, suc, ◌≤◌, ◌<◌, ◌≡◌, inl, inr, false, Option, none, some, ltb, if◌then◌else◌, min, arith,
  Bool-cases,
}
use mathlib.Core.Path.{subst}
use fincart_assissment.Common.Text.{Str, text, is_empty, is_blank}
use fincart_assissment.Common.Parse.{ℤ, pos, negsuc, parse_int, infinity}

pub record LoadTestConfig : Type 0 where
  pub target_url : Str
  pub concurrency : ℕ
  pub total_requests : ℕ
  pub duplicate_percent : ℕ
  pub signing_secret : Str

-- The variables of `process.env` that are read; `none` is `undefined`.
pub record Environment : Type 0 where
  pub signing_secret : Option Str
  pub target_url : Option Str
  pub concurrency : Option Str
  pub total_requests : Option Str
  pub duplicate_percent : Option Str

-- `Number.isFinite(parsed) && parsed > 0 ? parsed : fallback`.
abbrev positive_or : ℕ → Option ℤ → ℕ
positive_or fallback (some (pos (suc n))) = if ltb (suc n) infinity then suc n else fallback
positive_or fallback (some (pos zero)) = fallback
positive_or fallback (some (negsuc n)) = fallback
positive_or fallback none = fallback

unfoldable pub parse_number : Option Str → ℕ → ℕ
unfolding is_empty parse_int infinity
parse_number none fallback = fallback
parse_number (some value) fallback =
    if is_empty value then fallback else positive_or fallback (parse_int value)

abbrev url_or_default : Option Str → Str
url_or_default none = text "http://localhost:3000/v1/events/courier"
url_or_default (some url) = url

abbrev config_of : Environment → Str → LoadTestConfig
config_of env secret = record {
  target_url = url_or_default env.target_url;
  concurrency = parse_number env.concurrency 100;
  total_requests = parse_number env.total_requests 1000;
  duplicate_percent = min 100 (parse_number env.duplicate_percent 10);
  signing_secret = secret;
}

-- `none` is the error that SIGNING_SECRET is required; the empty text is blank.
unfoldable pub configured : Environment → Option Str → Option LoadTestConfig
unfolding is_blank parse_number
configured env none = none
configured env (some secret) = if is_blank secret then none else some (config_of env secret)

unfoldable pub load_config : Environment → Option LoadTestConfig
unfolding configured
load_config env = configured env env.signing_secret

positive_or-pos : (fallback : ℕ) (n : Option ℤ) → 0 < fallback → 0 < positive_or fallback n
positive_or-pos fallback (some (pos (suc n))) h = elim (Bool-cases (ltb (suc n) infinity)) [
  | inl e ↦ rw e (omega arith)
  | inr e ↦ rw e h
]
positive_or-pos fallback (some (pos zero)) h = h
positive_or-pos fallback (some (negsuc n)) h = h
positive_or-pos fallback none h = h

parse_number-pos :
    (value : Option Str) (fallback : ℕ) → 0 < fallback → 0 < parse_number value fallback
unfolding parse_number
parse_number-pos none fallback h = h
parse_number-pos (some value) fallback h = elim (Bool-cases (is_empty value)) [
  | inl e ↦ rw e h
  | inr e ↦ rw e (positive_or-pos fallback (parse_int value) h)
]

-- What the load test asks of its configuration.
pub record IsLoadTestConfig (config : LoadTestConfig) : Type 0 where
  pub some_requests : 0 < config.total_requests
  pub some_consumers : 0 < config.concurrency
  pub percent : config.duplicate_percent ≤ 100
  pub secret : is_blank config.signing_secret ≡ false

min-le : (a b : ℕ) → min a b ≤ a
min-le a b = ground arith

config_of-IsLoadTestConfig :
    (env : Environment) (secret : Str)
    → is_blank secret ≡ false
    → IsLoadTestConfig (config_of env secret)
config_of-IsLoadTestConfig env secret h = record {
  some_requests = parse_number-pos env.total_requests 1000 (omega arith);
  some_consumers = parse_number-pos env.concurrency 100 (omega arith);
  percent = min-le 100 (parse_number env.duplicate_percent 10);
  secret = h;
}

configured-IsLoadTestConfig :
    (env : Environment) (secret : Option Str) (config : LoadTestConfig)
    → configured env secret ≡ some config
    → IsLoadTestConfig config
unfolding configured
configured-IsLoadTestConfig env none config e = cc
configured-IsLoadTestConfig env (some secret) config e = elim (Bool-cases (is_blank secret)) [
  | inl blank ↦ let clash = rw (configured, blank) at e in cc
  | inr fine ↦
      let whole : some (config_of env secret) ≡ some config = rw (configured, fine) at e in
      let same : config_of env secret ≡ config = cc in
      subst IsLoadTestConfig same (config_of-IsLoadTestConfig env secret fine)
]

pub load_config-IsLoadTestConfig :
    (env : Environment) (config : LoadTestConfig)
    → load_config env ≡ some config
    → IsLoadTestConfig config
unfolding load_config
load_config-IsLoadTestConfig env config e =
    configured-IsLoadTestConfig env env.signing_secret config e
