-- ===== src/Examples/Gateway.antt =====
-- gateway-api/ on a request, with its services in memory.
use fincart_assissment.Common.{◌≡◌, refl, ◌⊎◌, ◌↔◌, none, some, [], ◌∷◌, arith}
use fincart_assissment.Common.Text.{text, is_blank, trim, str_eq, to_lower_case}
use fincart_assissment.Common.Parse.{parse_int, infinity}
use fincart_assissment.Contracts.{
  get_field, sha256, str, obj, Fields, end, field, CourierEvent, SignatureMeta,
}
use fincart_assissment.Effects.Post.{Post}
use fincart_assissment.Hmac.{verify_hmac_signature, timing_safe_equal_hex, compute_hmac_hex}
use fincart_assissment.Api.Request.{Request, absent, single, buffer}
use fincart_assissment.Api.Guard.{SignatureGuardOptions, parse_algorithm, go, signature_guard}
use fincart_assissment.Api.Guard.Decision.{Admitted, signature_guard_iff, signature_guard_replay}
use fincart_assissment.Api.Validator.{validate_courier_event}
use fincart_assissment.Api.Validator.Laws.{validate_courier_event_iff, IsFrom}
use fincart_assissment.Api.Ingestion.{Intake, Stores, ingestion_controller, ingestion_route}
use fincart_assissment.Api.Ingestion.Outcome.{queue_of, Handled, ingestion_controller_ends}
use fincart_assissment.Api.Ingestion.Route.{Authentic, ingestion_route-Authentic}
use fincart_assissment.Signing.{Drawn}
use fincart_assissment.Examples.Services.{
  log, broken, short_hash, short_hash-IsDigest, schemas, schemas-IsZod,
}

abbrev pub payload_fields : Fields
payload_fields =
    field (text "shipmentId") (str (text "s1")) (field (text "status") (str (text "moved")) end)

abbrev pub body_fields : Fields
body_fields = field (text "eventId") (str (text "e1")) (
    field (text "eventType") (str (text "moved")) (
      field (text "occurredAt") (str (text "2024-01-01T00:00:00Z")) (
        field (text "source") (str (text "dhl")) (
          field (text "idempotencyKey") (str (text " k1 "))
            (field (text "payload") (obj payload_fields) end)))))

abbrev pub request : Request
request = record {
  id = text "r1";
  x_request_id = absent;
  x_signature = single (text "06");
  x_signature_timestamp = single (text "1000");
  x_signature_algorithm = single (text "hmac-sha256");
  raw_body = buffer (1 ∷ 2 ∷ 3 ∷ []);
  body = obj body_fields;
  signature_meta = none;
}

abbrev pub options : SignatureGuardOptions
options = record { signing_secret = text "key"; signature_tolerance_seconds = 300 }

abbrev pub meta : SignatureMeta
meta = record { algorithm = sha256; timestamp = 1000; signature_header = text "06" }

abbrev pub let_through : Request
let_through = record request { signature_meta = some meta }

abbrev pub intake : Intake (Unit {0})
intake = record { queue = log; ingestion_records = log }

-- The queue is down.
abbrev down : Intake (Unit {0})
down = record { queue = broken tt; ingestion_records = log }

abbrev pub empty : Stores intake
empty = record { queued = []; records = [] }

abbrev empty_down : Stores down
empty_down = record { queued = []; records = [] }

pub is_let_through : signature_guard short_hash options 1000500 request ≡ go let_through
unfolding signature_guard parse_algorithm str_eq to_lower_case trim parse_int infinity
    verify_hmac_signature is_blank timing_safe_equal_hex compute_hmac_hex
is_let_through = refl

signature_guard_iff_example :
    (signature_guard short_hash options 1000500 request ≡ go let_through)
    ↔ Admitted short_hash options 1000500 request let_through
signature_guard_iff_example = signature_guard_iff short_hash options 1000500 request let_through

-- The same signature a day later, under a new timestamp.
signature_guard_replay_example :
    (m : SignatureMeta) × (signature_guard short_hash options 87400500
        (record request { x_signature_timestamp = single (text "87400") })
      ≡ go (record request {
        x_signature_timestamp = single (text "87400");
        signature_meta = some (record m { timestamp = 87400 });
      }))
unfolding parse_int infinity
signature_guard_replay_example =
    signature_guard_replay short_hash options 1000500 request let_through is_let_through 87400500
      (text "87400") 87400 refl (omega arith) (omega arith) (omega arith)

abbrev pub courier_event : CourierEvent
courier_event = record {
  event_id = text "e1";
  event_type = text "moved";
  occurred_at = text "2024-01-01T00:00:00Z";
  source = text "dhl";
  idempotency_key = text "k1";
  payload = payload_fields;
}

pub is_valid : validate_courier_event schemas request.body ≡ some courier_event
unfolding validate_courier_event get_field is_blank
is_valid = refl

validate_courier_event_iff_example :
    (validate_courier_event schemas request.body ≡ some courier_event)
    ↔ ((fields : Fields) × (request.body ≡ obj fields) × IsFrom schemas fields courier_event)
validate_courier_event_iff_example =
    validate_courier_event_iff schemas schemas-IsZod request.body courier_event

ingestion_controller_ends_example :
    Post
      (λ s' r. Handled down schemas 1000500 let_through empty_down s' r)
      (λ _ _. ⊥)
      (ingestion_controller down schemas 1000500 let_through empty_down)
ingestion_controller_ends_example =
    ingestion_controller_ends down schemas 1000500 let_through empty_down

ingestion_route-Authentic_example :
    Post
      (λ s' _.
        (queue_of intake s' ≡ queue_of intake empty)
        ⊎ Authentic intake short_hash options schemas 1000500 1000501 request empty s')
      (λ _ _. ⊥)
      (ingestion_route intake short_hash options schemas 1000500 1000501 request empty)
ingestion_route-Authentic_example =
    ingestion_route-Authentic intake short_hash options schemas 1000500 1000501 request empty
      short_hash-IsDigest

abbrev pub drawn : Drawn
drawn = record {
  event_uuid = text "6f9619ff";
  shipment_uuid = text "8b86d011";
  order_uuid = text "b42d00cf";
  request_uuid = text "c964ff00";
  now = 1000500;
  occurred_at = text "1970-01-01T00:16:40.500Z";
}
