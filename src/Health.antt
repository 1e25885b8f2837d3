-- ===== src/Health.antt =====
-- gateway-worker/src/health/health.ts and gateway-api/src/health/health.route.ts. The replies to the
-- two pings are arguments; the second is the field `ok` of MongoDB's reply, and `throw` stands for an
-- exception.
pub mod Laws
use fincart_assissment.Common.{
  ℕ, ◌+◌, ◌-◌, ◌≡◌, refl, ◌↔◌, Bool, true, false, ◌&&◌, Option, none, some, map, leb, ◌==◌,
  if◌then◌else◌, arith,
}
use fincart_assissment.Common.Text.{Str, text, str_eq}
use fincart_assissment.Effects.{Reply, ok, throw}

pub data Health : Type 0 where
  healthy unhealthy : Health

pub data Connection : Type 0 where
  connected disconnected : Connection

pub record HealthStatus : Type 0 where
  pub status : Health
  pub redis : Connection
  pub mongo : Connection
  pub timestamp : ℕ

abbrev pub upper : ℕ → ℕ
upper c = if leb b'a' c && leb c b'z' then c - 32 else c

unfoldable pub to_upper_case : Str → Str
unfolding upper
to_upper_case s = map upper s

abbrev pub is_pong : Str → Bool
is_pong result = str_eq (to_upper_case result) (text "PONG")

-- The two `try` statements.
unfoldable pub redis_connection : {E : Type 0} → Reply E Str → Connection
redis_connection (ok result) = if is_pong result then connected else disconnected
redis_connection (throw e) = disconnected

unfoldable pub mongo_connection : {E : Type 0} → Reply E (Option ℕ) → Connection
mongo_connection (ok (some n)) = if n == 1 then connected else disconnected
mongo_connection (ok none) = disconnected
mongo_connection (throw e) = disconnected

unfoldable pub health_of : Connection → Connection → Health
health_of connected connected = healthy
health_of connected disconnected = unhealthy
health_of disconnected mongo = unhealthy

-- `checkWorkerHealth`.
unfoldable pub check_worker_health :
    {E : Type 0} → Reply E Str → Reply E (Option ℕ) → ℕ → HealthStatus
check_worker_health redis_ping mongo_ping now = record {
  status = health_of (redis_connection redis_ping) (mongo_connection mongo_ping);
  redis = redis_connection redis_ping;
  mongo = mongo_connection mongo_ping;
  timestamp = now;
}

abbrev pub status_code : Health → ℕ
status_code healthy = 200
status_code unhealthy = 503

-- `GET /health`: the status code and the body.
unfoldable pub health_route : {E : Type 0} → Reply E Str → Reply E (Option ℕ) → ℕ → ℕ × HealthStatus
health_route redis_ping mongo_ping now =
    let body : HealthStatus = record {
      status = health_of (redis_connection redis_ping) (mongo_connection mongo_ping);
      redis = redis_connection redis_ping;
      mongo = mongo_connection mongo_ping;
      timestamp = now;
    } in
    (status_code body.status, body)
