-- ===== src/Examples/Starts.antt =====
-- gateway-api/src/main.ts and gateway-worker/src/main.ts with libraries that do what they are asked.
use fincart_assissment.Common.{
  ℕ, ◌≡◌, refl, Bool, true, false, Option, none, some, [], ◌∷◌, arith, if◌then◌else◌, here,
}
use fincart_assissment.Common.Text.{Str, text, str_eq, is_blank, trim, trim_start, is_space}
use fincart_assissment.Common.Parse.{infinity}
use fincart_assissment.Effects.{ok}
use fincart_assissment.Effects.Post.{Post, returned}
use fincart_assissment.Api.Guard.{go, signature_guard}
use fincart_assissment.Signing.{SignedEventPayload, cli_options, sign_cli}
use fincart_assissment.Signing.RoundTrip.{sent, meta_of}
use fincart_assissment.Service.Connection.{
  Url, MongoClient, connect_mongo, redis_options, parse_redis_options,
}
use fincart_assissment.Service.Environment.{load_api_env}
use fincart_assissment.Service.Shutdown
use fincart_assissment.Service.Shutdown.{
  gateway_worker, worker, dlq_queue, redis_connection, mongo_client, queue, app, Process,
  fresh_process, ShutdownRuns, now, next, signal, resolve, resolves, awaited, signalled,
}
use fincart_assissment.Service.Start.{
  Fastify, Libraries, Boot, ApiService, start_api, start, connects, wire_api, connect_api,
  api_service,
}
use fincart_assissment.Service.Start.Opening.{Progress}
use fincart_assissment.Service.Start.Stopping.{Undone, start-shutdown}
use fincart_assissment.Service.Start.Serving.{start_api-sign_cli}
use fincart_assissment.Examples.Services.{short_hash, short_hash-IsDigest}
use fincart_assissment.Examples.Gateway.{request, drawn}
use fincart_assissment.Examples.Environments.{schemas, schemas-IsEnvSchemas, nonblank}

abbrev redis_url : Url
redis_url = record {
  protocol = text "redis:";
  hostname = text "localhost";
  port = text "6379";
  password = [];
  username = [];
  pathname = [];
}

abbrev client : MongoClient ℕ
client = record {
  State = Bool;
  connected = λ s. s;
  connect = λ s. (true, ok tt);
  close = λ s. (false, ok tt);
  connect_connects = λ s. returned refl;
  close_disconnects = λ s. returned refl;
}

abbrev server : Fastify ℕ
server = record {
  State = Unit {0};
  register_raw_body = λ s. (s, ok tt);
  listen = λ port s. (s, ok tt);
}

abbrev libraries : Libraries ℕ
libraries = record {
  schemas = schemas;
  url_of = λ s. some redis_url;
  client = client;
  server = server;
}

abbrev boot : Boot libraries
boot = record { mongo = false; fastify = tt; opened = [] }

abbrev variables : Str → Option Str
variables key = if str_eq key (text "SIGNING_SECRET") then some (text "key") else none

-- A signal, and the four closes.
abbrev stopped : Process
stopped = record {
  shutting_down = true;
  health_timer = false;
  called = worker ∷ dlq_queue ∷ redis_connection ∷ mongo_client ∷ [];
  runs = Shutdown.returned ∷ [];
}

stops : ShutdownRuns gateway_worker 15000 fresh_process stopped
unfolding signalled awaited
stops =
    next
      (next
        (next (next (next now signal) (resolve (resolves 900) refl (here [])))
          (resolve (resolves 1) refl (here [])))
        (resolve (resolves 1) refl (here [])))
      (resolve (resolves 1) refl (here []))

start-shutdown_example :
    Post
      (λ s' _. Undone libraries stopped s')
      (λ s' _. Progress libraries gateway_worker s')
      (start libraries gateway_worker variables boot)
start-shutdown_example =
    start-shutdown libraries gateway_worker variables boot (λ s. tt) refl refl 15000 stopped []
      stops refl

abbrev serving : Boot libraries
serving = record {
  mongo = true;
  fastify = tt;
  opened = mongo_client ∷ redis_connection ∷ queue ∷ app ∷ [];
}

abbrev service : ApiService
service = record {
  log_level = text "info";
  redis = redis_options redis_url;
  db_name = text "fincart_gateway";
  guard = record { signing_secret = text "key"; signature_tolerance_seconds = 300 };
  port = 3000;
}

starts : start_api libraries variables boot ≡ (serving, ok service)
unfolding start_api load_api_env connect_api wire_api api_service connects connect_mongo
    parse_redis_options nonblank is_blank trim trim_start is_space str_eq
starts = refl

is_bare : trim (text "key") ≡ text "key"
unfolding trim trim_start
is_bare = refl

start_api-sign_cli_example :
    (event : SignedEventPayload) × (sign_cli short_hash (some (text "key")) drawn ≡ some event)
    × (signature_guard short_hash service.guard 1004500 (sent event request)
        ≡ go (record (sent event request) {
          signature_meta =
              some (meta_of short_hash short_hash-IsDigest (cli_options (text "key")) drawn);
        }))
unfolding infinity str_eq
start_api-sign_cli_example =
    start_api-sign_cli libraries variables boot serving service schemas-IsEnvSchemas starts
      short_hash short_hash-IsDigest drawn (text "key") request 1004500 refl is_bare (omega arith)
      (omega arith) (omega arith)
