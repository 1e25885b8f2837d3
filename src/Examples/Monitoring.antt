-- ===== src/Examples/Monitoring.antt =====
-- health.ts and health.route.ts on two replies.
use fincart_assissment.Common.{ℕ, ◌≡◌, ◌↔◌, Option, some}
use fincart_assissment.Common.Text.{Str, text}
use fincart_assissment.Effects.{Reply, ok}
use fincart_assissment.Health.{healthy, check_worker_health}
use fincart_assissment.Health.Laws.{AnswersPong, check_worker_health_iff}

abbrev redis_ping : Reply (Unit {0}) Str
redis_ping = ok (text "pong")

abbrev mongo_ping : Reply (Unit {0}) (Option ℕ)
mongo_ping = ok (some 0)

check_worker_health_iff_example :
    ((check_worker_health redis_ping mongo_ping 7).status ≡ healthy)
    ↔ (AnswersPong redis_ping × (mongo_ping ≡ ok (some 1)))
check_worker_health_iff_example = check_worker_health_iff redis_ping mongo_ping 7
