-- ===== src/Service/Shutdown.antt =====
-- The shutdown of the two services: gateway-worker/src/main.ts (closeWithTimeout, shutdown) and
-- gateway-api/src/main.ts (shutdown). The two signals may both arrive, and the second while the first
-- run of `shutdown` awaits something, so the runs are interleaved by whole steps between two `await`s.
-- Logging is left out.
pub mod Order
use fincart_assissment.Common.{
  ℕ, ◌≡◌, Bool, true, false, Option, none, some, List, [], ◌∷◌, ◌++◌, ltb, if◌then◌else◌, Replaced,
}
use fincart_assissment.Effects.{Reply, ok, throw}

pub data Service : Type 0 where
  gateway_api gateway_worker : Service

-- What a shutdown closes: the Fastify server or the BullMQ worker, the main queue or the dead-letter
-- queue, and the connections to Redis and MongoDB.
pub data Resource : Type 0 where
  app worker queue dlq_queue redis_connection mongo_client : Resource

-- How a promise settles, in milliseconds after it was made.
pub data Settlement : Type 0 where
  resolves rejects : (after : ℕ) → Settlement
  pends : Settlement

-- The promise itself, when nothing limits the wait; `none` while it is pending.
abbrev pub settled : Settlement → Option (Reply (Unit {0}) (Unit {0}))
settled (resolves after) = some (ok tt)
settled (rejects after) = some (throw tt)
settled pends = none

-- `closeWithTimeout`: the race with a timer that rejects.
unfoldable pub close_with_timeout : Settlement → ℕ → Option (Reply (Unit {0}) (Unit {0}))
close_with_timeout (resolves after) timeout_ms =
    some (if ltb after timeout_ms then ok tt else throw tt)
close_with_timeout (rejects after) timeout_ms = some (throw tt)
close_with_timeout pends timeout_ms = some (throw tt)

-- The closes that are awaited, in the order of the code.
abbrev pub closes : Service → List Resource
closes gateway_api = app ∷ queue ∷ redis_connection ∷ mongo_client ∷ []
closes gateway_worker = worker ∷ dlq_queue ∷ redis_connection ∷ mongo_client ∷ []

-- Only the close of the worker has a limit.
unfoldable pub awaited : ℕ → Resource → Settlement → Option (Reply (Unit {0}) (Unit {0}))
unfolding close_with_timeout
awaited drain_timeout_ms worker s = close_with_timeout s drain_timeout_ms
awaited drain_timeout_ms app s = settled s
awaited drain_timeout_ms queue s = settled s
awaited drain_timeout_ms dlq_queue s = settled s
awaited drain_timeout_ms redis_connection s = settled s
awaited drain_timeout_ms mongo_client s = settled s

-- A run of `shutdown`: it awaits a close, with those that follow it, has returned, or has thrown.
pub data Run : Type 0 where
  awaiting : Resource → List Resource → Run
  returned : Run
  thrown : Resource → List Resource → Run

-- `called` are the closes that were called.
pub record Process : Type 0 where
  pub shutting_down : Bool
  pub health_timer : Bool
  pub called : List Resource
  pub runs : List Run

-- The run when nothing or something is left to close, and the call that it makes.
abbrev pub go_on : List Resource → Run
go_on [] = returned
go_on (r ∷ rest) = awaiting r rest

abbrev pub call : List Resource → List Resource
call [] = []
call (r ∷ rest) = r ∷ []

-- A signal: a run of `shutdown` up to its first `await`.
unfoldable pub signalled : Service → Process → Process
signalled service s =
    if s.shutting_down then record s { runs = s.runs ++ returned ∷ [] } else record {
      shutting_down = true;
      health_timer = false;
      called = s.called ++ call (closes service);
      runs = s.runs ++ go_on (closes service) ∷ [];
    }

pub data ShutdownStep (service : Service) (drain_timeout_ms : ℕ) (s : Process)
    : Process → Type 0 where
  signal : ShutdownStep service drain_timeout_ms s (signalled service s)
  resolve :
      {r : Resource} {rest : List Resource} {runs : List Run} (p : Settlement)
      → awaited drain_timeout_ms r p ≡ some (ok tt)
      → Replaced (awaiting r rest) (go_on rest) s.runs runs
      → ShutdownStep service drain_timeout_ms s
          (record s { called = s.called ++ call rest; runs = runs })
  reject :
      {r : Resource} {rest : List Resource} {runs : List Run} (p : Settlement)
      → awaited drain_timeout_ms r p ≡ some (throw tt)
      → Replaced (awaiting r rest) (thrown r rest) s.runs runs
      → ShutdownStep service drain_timeout_ms s (record s { runs = runs })

abbrev pub fresh_process : Process
fresh_process = record { shutting_down = false; health_timer = true; called = []; runs = [] }

-- Some steps, one after the other.
pub data ShutdownRuns (service : Service) (drain_timeout_ms : ℕ) (s : Process)
    : Process → Type 0 where
  now : ShutdownRuns service drain_timeout_ms s s
  next :
      {t u : Process}
      → ShutdownRuns service drain_timeout_ms s t
      → ShutdownStep service drain_timeout_ms t u
      → ShutdownRuns service drain_timeout_ms s u
