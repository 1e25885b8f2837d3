-- ===== src/Service/Environment/Gateway.antt =====
-- What holds of the environment of a gateway that starts (gateway-api/src/config/env.ts).
use fincart_assissment.Common.{ℕ, ◌≤◌, ◌≡◌, refl, false, Option, none, some, arith}
use mathlib.Core.Path.{subst}
use mathlib.Core.Option.{some-injective}
use fincart_assissment.Common.Chain.{bind-eq-some}
use fincart_assissment.Common.Text.{Str, text, trim, is_blank}
use fincart_assissment.Service.Environment.{
  EnvSchemas, IsEnvSchemas, default, required, name_var, node_env_var, log_level_var, redis_url_var,
  mongo_uri_var, mongo_db_name_var, ApiEnv, load_api_env,
}

-- The secret is that of the environment, trimmed, and the numbers are in their ranges.
pub record IsApiEnv (variables : Str → Option Str) (e : ApiEnv) : Type 0 where
  pub raw_secret : Str
  pub secret_given : variables (text "SIGNING_SECRET") ≡ some raw_secret
  pub secret_nonblank : is_blank raw_secret ≡ false
  pub secret_trimmed : e.signing_secret ≡ trim raw_secret
  pub port : (1 ≤ e.api_port) × (e.api_port ≤ 65535)
  pub tolerance : 1 ≤ e.signature_tolerance_seconds

module _ (z : EnvSchemas) (h : IsEnvSchemas z) where
  secret_of :
      (secret : Str) (v : Option Str)
      → required z.nonempty_text v ≡ some secret
      → (raw : Str) × (v ≡ some raw) × (is_blank raw ≡ false) × (secret ≡ trim raw)
  secret_of secret none e = absurd (cc)
  secret_of secret (some raw) e =
      let (nonblank, same) = h.trims raw secret e in (raw, refl, nonblank, same)

  port_within :
      (n : ℕ) (v : Option Str)
      → default (z.int_between 1 65535) 3000 v ≡ some n
      → (1 ≤ n) × (n ≤ 65535)
  port_within n none e = let same : 3000 ≡ n = cc in (omega arith, omega arith)
  port_within n (some s) e = h.within 1 65535 n s e

  tolerance_from : (n : ℕ) (v : Option Str) → default (z.int_from 1) 300 v ≡ some n → 1 ≤ n
  tolerance_from n none e = let same : 300 ≡ n = cc in omega arith
  tolerance_from n (some s) e = h.from 1 n s e

  pub load_api_env-IsApiEnv :
      (variables : Str → Option Str) (e : ApiEnv)
      → load_api_env z variables ≡ some e
      → IsApiEnv variables e
  unfolding load_api_env
  load_api_env-IsApiEnv variables e loaded =
      bind-eq-some (name_var z variables (text "gateway-api")) _ loaded λ name _ h₁.
        bind-eq-some (node_env_var z variables) _ h₁ λ node _ h₂.
          bind-eq-some (log_level_var z variables) _ h₂ λ level _ h₃.
            bind-eq-some (default (z.int_between 1 65535) 3000 (variables (text "API_PORT"))) _ h₃
              λ port has_port h₄.
                bind-eq-some (required z.nonempty_text (variables (text "SIGNING_SECRET"))) _ h₄
                  λ secret has_secret h₅.
                    bind-eq-some
                      (default (z.int_from 1) 300 (variables (text "SIGNATURE_TOLERANCE_SECONDS")))
                      _ h₅
                      λ tolerance has_tolerance h₆.
                        bind-eq-some (redis_url_var z variables) _ h₆ λ redis _ h₇.
                          bind-eq-some (mongo_uri_var z variables) _ h₇ λ mongo _ h₈.
                            bind-eq-some (mongo_db_name_var z variables) _ h₈ λ db _ h₉.
                              let (raw, given, nonblank, trimmed) = secret_of secret _ has_secret in
                              subst (IsApiEnv variables) (some-injective _ _ h₉) (record {
                                raw_secret = raw;
                                secret_given = given;
                                secret_nonblank = nonblank;
                                secret_trimmed = trimmed;
                                port = port_within port _ has_port;
                                tolerance = tolerance_from tolerance _ has_tolerance;
                              })
