-- ===== src/Service/Connection.antt =====
-- How the services and the replay of dead letters connect: parseRedisOptions of
-- gateway-worker/src/main.ts and scripts/dlq/replay-dlq.ts, which gateway-api/src/main.ts has inline,
-- and connectMongo of gateway-worker/src/config/mongo.ts and gateway-api/src/config/mongo.ts. The URL
-- parser and MongoDB's client are parameters.
use fincart_assissment.Common.{
  ℕ, ◌≡◌, refl, Bool, true, false, Option, none, some, [], ◌∷◌, ◌==◌, if◌then◌else◌,
}
use fincart_assissment.Common.Text.{Str, text, is_empty, starts_with, trim_start}
use fincart_assissment.Common.Parse.{ℤ, pos, parse_int, decimal}
use fincart_assissment.Common.Parse.Laws.{parse_int-decimal}
use fincart_assissment.Effects.{Reply, ok, throw, Action}
use fincart_assissment.Effects.Post.{Post, returned, thrown, Succeeds}

-- What is read of a `URL`.
pub record Url : Type 0 where
  pub protocol : Str
  pub hostname : Str
  pub port : Str
  pub password : Str
  pub username : Str
  pub pathname : Str

-- `port` and `db` are `none` where they are NaN.
pub record RedisOptions : Type 0 where
  pub lazy_connect : Bool
  pub max_retries_per_request : Option ℕ
  pub enable_ready_check : Bool
  pub connect_timeout : ℕ
  pub tls : Bool
  pub host : Str
  pub port : Option ℤ
  pub password : Option Str
  pub username : Option Str
  pub db : Option ℤ

-- `value || fallback`.
abbrev text_or : Str → Str → Str
text_or value fallback = if is_empty value then fallback else value

-- `value || undefined`.
abbrev or_undefined : Str → Option Str
or_undefined value = if is_empty value then none else some value

-- `pathname.replace('/', '')`, which takes away the first slash.
abbrev without_slash : Str → Str
without_slash [] = []
without_slash (c ∷ s) = let rest = without_slash s in if c == b'/' then s else c ∷ rest

unfoldable pub redis_options : Url → RedisOptions
unfolding is_empty starts_with parse_int
redis_options url = record {
  lazy_connect = false;
  max_retries_per_request = none;
  enable_ready_check = true;
  connect_timeout = 5000;
  tls = starts_with url.protocol (text "rediss");
  host = url.hostname;
  port = parse_int (text_or url.port (text "6379"));
  password = or_undefined url.password;
  username = or_undefined url.username;
  db = parse_int (text_or (without_slash url.pathname) (text "0"));
}

-- `new URL(text)` throws on a text that is no URL.
unfoldable pub parse_redis_options : (Str → Option Url) → Str → Option RedisOptions
unfolding redis_options
parse_redis_options url_of raw = parsed (url_of raw)
  where
    parsed : Option Url → Option RedisOptions
    parsed none = none
    parsed (some url) = some (redis_options url)

parse_int-text_or :
    (value fallback : Str) (v : ℤ)
    → parse_int value ≡ some v
    → parse_int (text_or value fallback) ≡ some v
unfolding is_empty parse_int trim_start
parse_int-text_or [] fallback v h = absurd cc
parse_int-text_or (c ∷ s) fallback v h = h

-- The port and the number of the database are those that the URL has in decimal digits.
pub redis_options-numbers :
    (url : Url) (port db : ℕ)
    → url.port ≡ decimal port
    → url.pathname ≡ b'/' ∷ decimal db
    → ((redis_options url).port ≡ some (pos port)) × ((redis_options url).db ≡ some (pos db))
unfolding redis_options
redis_options-numbers url port db is_port is_path = (
  parse_int-text_or url.port (text "6379") (pos port) (rw is_port (parse_int-decimal port)),
  parse_int-text_or (without_slash url.pathname) (text "0") (pos db)
      (rw is_path (parse_int-decimal db)),
)

-- The error of the service, with its cause.
pub data ConnectError (E : Type 0) : Type 0 where
  failed_to_connect : Str → E → ConnectError E

-- MongoDB's client: whether it is connected, `connect` and `close`.
pub record MongoClient (E : Type 0) : Type 1 where
  pub State : Type 0
  pub connected : State → Bool
  pub connect : State → State × Reply E (Unit {0})
  pub close : State → State × Reply E (Unit {0})
  pub connect_connects :
      (s : State) → Post (λ s' _. connected s' ≡ true) (λ _ _. Unit {0}) (connect s)
  pub close_disconnects :
      (s : State) → Post (λ s' _. connected s' ≡ false) (λ _ _. Unit {0}) (close s)

-- A connection can be closed.
abbrev pub Closes : {E : Type 0} → MongoClient E → Type 0
Closes client = (s : client.State) → Succeeds (client.close s)

module _ {E : Type 0} (client : MongoClient E) (message : Str) where
  -- The `catch` clause, where an error of `close` is dropped.
  abbrev close_and_fail :
      client.State × Reply E (Unit {0}) → client.State × Reply (ConnectError E) (Unit {0})
  close_and_fail (s, ok _) = (s, ok tt)
  close_and_fail (s, throw e) = ((client.close s).0, throw (failed_to_connect message e))

  -- `message` is that of the service.
  unfoldable pub connect_mongo : Action client.State (ConnectError E) (Unit {0})
  connect_mongo s = close_and_fail (client.connect s)

  closed_after :
      {r : client.State × Reply E (Unit {0})}
      → Post (λ s' _. client.connected s' ≡ false) (λ _ _. Unit {0}) r
      → Succeeds r
      → client.connected r.0 ≡ false
  closed_after (returned h) succeeds = h
  closed_after (thrown h) succeeds = absurd succeeds

  close_and_fail_ends :
      {r : client.State × Reply E (Unit {0})}
      → Post (λ s' _. client.connected s' ≡ true) (λ _ _. Unit {0}) r
      → Closes client
      → Post
          (λ s' _. client.connected s' ≡ true)
          (λ s' x.
            (client.connected s' ≡ false) × (cause : E) × (x ≡ failed_to_connect message cause))
          (close_and_fail r)
  close_and_fail_ends (returned h) closes = returned h
  close_and_fail_ends (thrown {w} {e} h) closes =
      thrown (closed_after (client.close_disconnects w) (closes w), e, refl)

  -- When connections can be closed, a service either has a connected client or an error that names
  -- the cause, and then it has left no client connected.
  pub connect_mongo_ends :
      (s : client.State)
      → Closes client
      → Post
          (λ s' _. client.connected s' ≡ true)
          (λ s' x.
            (client.connected s' ≡ false) × (cause : E) × (x ≡ failed_to_connect message cause))
          (connect_mongo s)
  unfolding connect_mongo
  connect_mongo_ends s closes = close_and_fail_ends (client.connect_connects s) closes
