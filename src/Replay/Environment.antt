-- ===== src/Replay/Environment.antt =====
-- The environment of scripts/dlq/replay-dlq.ts, whose three variables are those of the services.
use fincart_assissment.Common.{Option, some}
use fincart_assissment.Common.Chain.{◌>>=◌}
use fincart_assissment.Common.Text.{Str}
use fincart_assissment.Service.Environment.{
  EnvSchemas, redis_url_var, mongo_uri_var, mongo_db_name_var,
}

pub record ReplayEnv : Type 0 where
  pub redis_url : Str
  pub mongo_uri : Str
  pub mongo_db_name : Str

-- `envSchema.parse(process.env)`; `none` is its error.
unfoldable pub replay_env : EnvSchemas → (Str → Option Str) → Option ReplayEnv
replay_env z variables = do
  redis_url ← redis_url_var z variables
  mongo_uri ← mongo_uri_var z variables
  mongo_db_name ← mongo_db_name_var z variables
  some (record { redis_url = redis_url; mongo_uri = mongo_uri; mongo_db_name = mongo_db_name })
