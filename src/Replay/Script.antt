-- ===== src/Replay/Script.antt =====
-- scripts/dlq/replay-dlq.ts as a whole: its environment, its connections, the replay, the closes of
-- the `finally` clause and the exit code. Zod's schemas, the URL parser and the calls that connect and
-- close are parameters; the constructors of Redis and of the queue do not fail.
pub mod Closing
pub mod Ends
use fincart_assissment.Common.{ℕ, Option, none, some, List, [], ◌∷◌, ◌++◌}
use fincart_assissment.Common.Text.{Str, text}
use fincart_assissment.Effects.{Reply, ok, throw, Action, ◌>>=◌, ◌>>◌, finally}
use fincart_assissment.Replay.{Places, ReplayState, Times, parse_limit, replay_dead_letters}
use fincart_assissment.Service.Connection.{Url, RedisOptions, parse_redis_options}
use fincart_assissment.Service.Environment.{EnvSchemas}
use fincart_assissment.Replay.Environment.{ReplayEnv, replay_env}
use fincart_assissment.Service.Shutdown.{Resource, queue, redis_connection, mongo_client}

-- What `run` rejects with.
pub data ScriptError (E : Type 0) : Type 0 where
  invalid_environment invalid_url : ScriptError E
  failed : E → ScriptError E

-- The state of the connections, and the calls that settle on it.
pub record Connections (E : Type 0) : Type 1 where
  pub State : Type 0
  pub connect_mongo : State → State × Reply E (Unit {0})
  pub close_queue : State → State × Reply E (Unit {0})
  pub quit_redis : State → State × Reply E (Unit {0})
  pub close_mongo : State → State × Reply E (Unit {0})

pub record Outside (E : Type 0) : Type 1 where
  pub schemas : EnvSchemas
  pub url_of : Str → Option Url
  pub places : Places E
  pub connections : Connections E

-- `called` are the closes that were called.
pub record Script {E : Type 0} (o : Outside E) : Type 0 where
  pub replay : ReplayState o.places
  pub connected : o.connections.State
  pub called : List Resource

module _ {E : Type 0} (o : Outside E) (times : ℕ → Times) where
  abbrev pub Scripted : Type 0 → Type 0
  Scripted A = Action (Script o) (ScriptError E) A

  abbrev pub given_or : {A : Type 0} → ScriptError E → Option A → Scripted A
  given_or e none s = (s, throw e)
  given_or e (some a) s = (s, ok a)

  -- An error of a service.
  abbrev pub lifted : {A : Type 0} → Reply E A → Reply (ScriptError E) A
  lifted (ok a) = ok a
  lifted (throw e) = throw (failed e)

  abbrev pub on_connections :
      (o.connections.State → o.connections.State × Reply E (Unit {0})) → Scripted (Unit {0})
  on_connections op s = let r = op s.connected in (record s { connected = r.0 }, lifted r.1)

  abbrev pub closing :
      Resource
      → (o.connections.State → o.connections.State × Reply E (Unit {0}))
      → Scripted (Unit {0})
  closing resource op s =
      let r = op s.connected in
      (record s { connected = r.0; called = s.called ++ resource ∷ [] }, lifted r.1)

  -- The `finally` clause.
  unfoldable pub close_all : Scripted (Unit {0})
  close_all = do
    closing queue o.connections.close_queue
    closing redis_connection o.connections.quit_redis
    closing mongo_client o.connections.close_mongo

  -- The body of the `try` statement.
  unfoldable pub replay_letters : ℕ → Scripted (Unit {0})
  unfolding replay_dead_letters
  replay_letters limit s =
      let r = replay_dead_letters o.places times limit s.replay in
      (record s { replay = r.0 }, lifted r.1)

  unfoldable pub try_replay : ℕ → Scripted (Unit {0})
  unfolding replay_letters close_all
  try_replay limit s = finally close_all (replay_letters limit s)

  -- The rest of `run` when MongoDB is connected.
  unfoldable pub with_redis : ℕ → ReplayEnv → Scripted (Unit {0})
  with_redis limit env = do
    redis ← given_or invalid_url (parse_redis_options o.url_of env.redis_url)
    try_replay limit

  unfoldable pub with_connection : ℕ → ReplayEnv → Scripted (Unit {0})
  unfolding with_redis
  with_connection limit env = do on_connections o.connections.connect_mongo; with_redis limit env

  -- `run`, with the command line after the name of the script.
  unfoldable pub run_script : (Str → Option Str) → List Str → Scripted (Unit {0})
  unfolding with_connection try_replay
  run_script variables argv = do
    env ← given_or invalid_environment (replay_env o.schemas variables)
    with_connection (parse_limit argv) env

  -- The exit code, which `run().catch` sets on an error.
  abbrev pub replay_exit_code : Script o × Reply (ScriptError E) (Unit {0}) → ℕ
  replay_exit_code (s, ok _) = 0
  replay_exit_code (s, throw e) = 1
