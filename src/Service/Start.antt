-- ===== src/Service/Start.antt =====
-- The start of the two services: gateway-api/src/main.ts and gateway-worker/src/main.ts (start). The
-- libraries that they wire together are parameters: Zod's schemas, the URL parser, MongoDB's client
-- for the URI of the environment, and Fastify. The constructors of Redis, of the queues and of the
-- worker do not fail; they connect later. What the listeners of the worker and its health timer do
-- is logging, which is left out.
pub mod Opening
pub mod Stopping
pub mod Serving
use fincart_assissment.Common.{ℕ, Option, none, some, List, [], ◌∷◌, ◌++◌, Bool, true, false, not}
use fincart_assissment.Common.Text.{Str, text}
use fincart_assissment.Effects.{Reply, ok, throw, Action, return, ◌>>=◌, ◌>>◌}
use fincart_assissment.Logging.{CreateLoggerOptions}
use fincart_assissment.Api.Guard.{SignatureGuardOptions}
use fincart_assissment.Worker.Retry.{RetryPolicyConfig}
use fincart_assissment.Service.Connection.{
  Url, RedisOptions, parse_redis_options, ConnectError, MongoClient, connect_mongo,
}
use fincart_assissment.Service.Environment.{
  EnvSchemas, NodeEnv, production, LogLevel, fatal, error, warn, info, debug, trace, silent,
  WorkerEnv, ApiEnv, load_worker_env, load_api_env, retry_config,
}
use fincart_assissment.Service.Shutdown.{
  Service, gateway_api, gateway_worker, Resource, app, worker, queue, dlq_queue, redis_connection,
  mongo_client,
}

-- What `start` rejects with.
pub data StartError (E : Type 0) : Type 0 where
  invalid_environment invalid_url : StartError E
  not_connected : ConnectError E → StartError E
  refused : E → StartError E

-- Fastify: the plugin for the raw body is registered, and the server listens on a port.
pub record Fastify (E : Type 0) : Type 1 where
  pub State : Type 0
  pub register_raw_body : State → State × Reply E (Unit {0})
  pub listen : ℕ → State → State × Reply E (Unit {0})

pub record Libraries (E : Type 0) : Type 1 where
  pub schemas : EnvSchemas
  pub url_of : Str → Option Url
  pub client : MongoClient E
  pub server : Fastify E

-- `opened` are the resources of `shutdown` in the order in which they were opened; the server is one
-- from when it listens.
pub record Boot {E : Type 0} (l : Libraries E) : Type 0 where
  pub mongo : l.client.State
  pub fastify : l.server.State
  pub opened : List Resource

-- What a service that has started runs with.
pub record WorkerService : Type 0 where
  pub logger : CreateLoggerOptions
  pub redis : RedisOptions
  pub db_name : Str
  pub retry : RetryPolicyConfig
  pub concurrency : ℕ
  pub drain_timeout_ms : ℕ

pub record ApiService : Type 0 where
  pub log_level : Str
  pub redis : RedisOptions
  pub db_name : Str
  pub guard : SignatureGuardOptions
  pub port : ℕ

unfoldable pub level_text : LogLevel → Str
level_text fatal = text "fatal"
level_text error = text "error"
level_text warn = text "warn"
level_text info = text "info"
level_text debug = text "debug"
level_text trace = text "trace"
level_text silent = text "silent"

-- `env.NODE_ENV !== 'production'`.
abbrev pub is_pretty : NodeEnv → Bool
is_pretty production = false
is_pretty _ = true

module _ {E : Type 0} (l : Libraries E) where
  abbrev pub Starting : Type 0 → Type 0
  Starting A = Action (Boot l) (StartError E) A

  -- A value that is there, or the error.
  abbrev pub given_or : {A : Type 0} → StartError E → Option A → Starting A
  given_or e none s = (s, throw e)
  given_or e (some a) s = (s, ok a)

  abbrev pub opens : Resource → Starting (Unit {0})
  opens r s = (record s { opened = s.opened ++ r ∷ [] }, ok tt)

  abbrev pub connected :
      Boot l
      → l.client.State × Reply (ConnectError E) (Unit {0})
      → Boot l × Reply (StartError E) (Unit {0})
  connected s (m, ok _) = (record s { mongo = m; opened = s.opened ++ mongo_client ∷ [] }, ok tt)
  connected s (m, throw e) = (record s { mongo = m }, throw (not_connected e))

  -- `await connectMongo(env.MONGO_URI)`.
  unfoldable pub connects : Str → Starting (Unit {0})
  connects message s = connected s (connect_mongo l.client message s.mongo)

  abbrev pub answered :
      Boot l → l.server.State × Reply E (Unit {0}) → Boot l × Reply (StartError E) (Unit {0})
  answered s (f, ok _) = (record s { fastify = f }, ok tt)
  answered s (f, throw e) = (record s { fastify = f }, throw (refused e))

  abbrev pub on_server :
      (l.server.State → l.server.State × Reply E (Unit {0})) → Starting (Unit {0})
  on_server op s = answered s (op s.fastify)

  -- The rest of the worker's `start` when MongoDB is connected and the URL of Redis is read.
  unfoldable pub wire_worker : WorkerEnv → RedisOptions → Starting WorkerService
  unfolding level_text
  wire_worker env redis = do
    opens redis_connection
    opens dlq_queue
    opens worker
    return (record {
      logger = record {
        service_name = env.service_name;
        level = level_text env.log_level;
        pretty = some (is_pretty env.node_env);
      };
      redis = redis;
      db_name = env.mongo_db_name;
      retry = retry_config env;
      concurrency = env.worker_concurrency;
      drain_timeout_ms = env.worker_drain_timeout_ms;
    })

  abbrev pub redis_of : Str → Starting RedisOptions
  redis_of url = given_or invalid_url (parse_redis_options l.url_of url)

  unfoldable pub connect_worker : WorkerEnv → Starting WorkerService
  connect_worker env = do
    connects (text "Failed to connect to MongoDB for gateway-worker.")
    redis ← redis_of env.redis_url
    wire_worker env redis

  -- `start` of gateway-worker/src/main.ts.
  unfoldable pub start_worker : (Str → Option Str) → Starting WorkerService
  unfolding connect_worker wire_worker connects
  start_worker variables = do
    env ← given_or invalid_environment (load_worker_env l.schemas variables)
    connect_worker env

  unfoldable pub api_service : ApiEnv → RedisOptions → ApiService
  unfolding level_text
  api_service env redis = record {
    log_level = level_text env.log_level;
    redis = redis;
    db_name = env.mongo_db_name;
    guard = record {
      signing_secret = env.signing_secret;
      signature_tolerance_seconds = env.signature_tolerance_seconds;
    };
    port = env.api_port;
  }

  abbrev pub listening : ApiEnv → RedisOptions → Starting ApiService
  listening env redis = opens app >> return (api_service env redis)

  -- The rest of the gateway's `start`, likewise.
  unfoldable pub wire_api : ApiEnv → RedisOptions → Starting ApiService
  unfolding api_service
  wire_api env redis = do
    opens redis_connection
    opens queue
    on_server (l.server.listen env.api_port)
    listening env redis

  unfoldable pub connect_api : ApiEnv → Starting ApiService
  connect_api env = do
    on_server l.server.register_raw_body
    connects (text "Failed to connect to MongoDB for gateway-api.")
    redis ← redis_of env.redis_url
    wire_api env redis

  -- `start` of gateway-api/src/main.ts.
  unfoldable pub start_api : (Str → Option Str) → Starting ApiService
  unfolding connect_api wire_api connects
  start_api variables = do
    env ← given_or invalid_environment (load_api_env l.schemas variables)
    connect_api env

  abbrev pub discard :
      {A : Type 0} → Boot l × Reply (StartError E) A → Boot l × Reply (StartError E) (Unit {0})
  discard (s, ok _) = (s, ok tt)
  discard (s, throw e) = (s, throw e)

  -- `start` of a service.
  unfoldable pub start : Service → (Str → Option Str) → Starting (Unit {0})
  unfolding start_worker start_api
  start gateway_worker variables s = discard (start_worker variables s)
  start gateway_api variables s = discard (start_api variables s)
