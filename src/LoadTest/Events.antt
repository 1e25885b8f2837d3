-- ===== src/LoadTest/Events.antt =====
-- scripts/load-test/run-load-test.ts (buildEvents): the events of a load test. `JSON.parse` gives back
-- the object of texts that `JSON.stringify` made a body of.
pub mod Copies
pub mod Mixture
use fincart_assissment.Common.{
  ℕ, zero, suc, ◌+◌, ◌*◌, ◌/◌, Bool, true, false, Option, none, some, List, [], ◌∷◌, ◌++◌, length,
  leb, item_at, at_least_one,
}
use fincart_assissment.Common.Text.{Str, text}
use fincart_assissment.Contracts.{Value, str, obj, get_field}
use fincart_assissment.Hmac.{Hmac}
use fincart_assissment.Signing.{
  GenerateSignedEventOptions, Drawn, SignedEventPayload, body_object, generate_signed_event,
}
use fincart_assissment.LoadTest.Config.{LoadTestConfig}

pub record PreparedEvent : Type 0 where
  pub payload : SignedEventPayload
  pub idempotency_key : Str
  pub is_duplicate : Bool

-- A result of `Math.random()`.
pub record Random : Type 0 where
  pub top : ℕ
  pub bottom : ℕ

-- What the loops draw for the event, or the duplicate, of an index.
pub record Draws : Type 0 where
  pub original : ℕ → Drawn
  pub duplicate : ℕ → Drawn
  pub random : ℕ → Random

-- `(parsed as { idempotencyKey: string }).idempotencyKey`. The bodies here have it, as a text.
abbrev text_of : Option Value → Str
text_of (some (str s)) = s
text_of _ = []

abbrev pub key_in : Value → Str
key_in (obj fields) = text_of (get_field fields (text "idempotencyKey"))
key_in _ = []

-- The options with the secret, and with a key or without.
abbrev pub signing_options : Str → Option Str → GenerateSignedEventOptions
signing_options secret key = record {
  signing_secret = secret;
  event_id = none;
  source = none;
  event_type = none;
  idempotency_key = key;
  shipment_id = none;
  order_id = none;
  status = none;
}

-- `events[i] = event` inside the list.
abbrev pub set_at : ℕ → PreparedEvent → List PreparedEvent → List PreparedEvent
set_at i event [] = []
set_at zero event (x ∷ xs) = event ∷ xs
set_at (suc i) event (x ∷ xs) = x ∷ set_at i event xs

module _ (hmac : Hmac) (draws : Draws) (secret : Str) where
  unfoldable pub original_event : ℕ → PreparedEvent
  original_event i =
      let options = signing_options secret none in
      record {
        payload = generate_signed_event hmac options (draws.original i);
        idempotency_key = key_in (body_object options (draws.original i));
        is_duplicate = false;
      }

  -- The first loop, from `i` on.
  unfoldable pub original_events : ℕ → ℕ → List PreparedEvent
  unfolding original_event
  original_events zero i = []
  original_events (suc n) i = original_event i ∷ original_events n (suc i)

  unfoldable pub duplicate_event : ℕ → Str → PreparedEvent
  duplicate_event i key = record {
    payload = generate_signed_event hmac (signing_options secret (some key)) (draws.duplicate i);
    idempotency_key = key;
    is_duplicate = true;
  }

  -- `Math.floor(Math.random() * sourcePoolSize)`.
  abbrev pub source_index : ℕ → ℕ → ℕ
  source_index pool i = (draws.random i).top * pool / (draws.random i).bottom

  -- The second loop, with the rounds left, from `i` on; `none` is the error of reading a property of
  -- `undefined`.
  unfoldable pub duplicate_events : ℕ → ℕ → ℕ → List PreparedEvent → Option (List PreparedEvent)
  unfolding duplicate_event
  duplicate_events pool zero i events = some events
  duplicate_events pool (suc n) i events = elim (leb (length events) (pool + i)) [
    | true ↦ some events
    | false ↦ elim (item_at (source_index pool i) events) [
      | none ↦ none
      | some source ↦
          duplicate_events pool n (suc i)
            (set_at (pool + i) (duplicate_event i source.idempotency_key) events)
    ]
  ]

unfoldable pub duplicate_count : LoadTestConfig → ℕ
duplicate_count config = config.total_requests * config.duplicate_percent / 100

-- `Math.max(1, Math.floor(config.totalRequests * 0.5))`.
unfoldable pub source_pool_size : LoadTestConfig → ℕ
source_pool_size config = at_least_one (config.total_requests / 2)

unfoldable pub build_events : Hmac → Draws → LoadTestConfig → Option (List PreparedEvent)
unfolding original_events duplicate_events duplicate_count source_pool_size
build_events hmac draws config =
    duplicate_events hmac draws config.signing_secret (source_pool_size config)
      (duplicate_count config) 0
      (original_events hmac draws config.signing_secret config.total_requests 0)
