-- ===== src/Signing.antt =====
-- scripts/signing/generate-signed-event.ts: a signed request, as a client makes it.
pub mod Encode
pub mod RoundTrip
use fincart_assissment.Common.{
  ℕ, zero, suc, ◌/◌, Option, none, some, List, [], ◌∷◌, ◌++◌, if◌then◌else◌,
}
use fincart_assissment.Common.Text.{Str, text, is_blank}
use fincart_assissment.Common.Parse.{decimal}
use fincart_assissment.Contracts.{sha256, Value, str, obj, Fields, end, field}
use fincart_assissment.Hmac.{Hmac, to_hex}
use fincart_assissment.Signing.Encode.{stringify, utf8}

pub record GenerateSignedEventOptions : Type 0 where
  pub signing_secret : Str
  pub event_id : Option Str
  pub source : Option Str
  pub event_type : Option Str
  pub idempotency_key : Option Str
  pub shipment_id : Option Str
  pub order_id : Option Str
  pub status : Option Str

-- The results of the calls of `randomUUID()` for each field, the clock in milliseconds and its ISO
-- text.
pub record Drawn : Type 0 where
  pub event_uuid : Str
  pub shipment_uuid : Str
  pub order_uuid : Str
  pub request_uuid : Str
  pub now : ℕ
  pub occurred_at : Str

-- The body and the headers; `content-type` is the same for all.
pub record SignedEventPayload : Type 0 where
  pub body : Str
  pub x_signature : Str
  pub x_signature_timestamp : Str
  pub x_signature_algorithm : Str
  pub x_request_id : Str

abbrev or_else : Option Str → Str → Str
or_else none fallback = fallback
or_else (some s) fallback = s

-- `slice(0, n)`.
abbrev first : ℕ → Str → Str
first zero s = []
first (suc n) [] = []
first (suc n) (c ∷ s) = c ∷ first n s

unfoldable pub body_object : GenerateSignedEventOptions → Drawn → Value
body_object options drawn =
    let source = or_else options.source (text "load-test") in
    let event_id = or_else options.event_id (text "evt_" ++ drawn.event_uuid) in
    let event_type = or_else options.event_type (text "shipment.status.updated") in
    let idempotency_key = or_else options.idempotency_key (source ++ text ":" ++ event_id) in
    let shipment_id = or_else options.shipment_id (text "shp_" ++ first 8 drawn.shipment_uuid) in
    let order_id = or_else options.order_id (text "ord_" ++ first 8 drawn.order_uuid) in
    let status = or_else options.status (text "out_for_delivery") in
    let payload =
      field (text "shipmentId") (str shipment_id)
        (field (text "orderId") (str order_id) (field (text "status") (str status) end)) in
    obj (
      field (text "eventId") (str event_id) (
        field (text "eventType") (str event_type) (
          field (text "occurredAt") (str drawn.occurred_at) (
            field (text "source") (str source) (
              field (text "idempotencyKey") (str idempotency_key)
                (field (text "payload") (obj payload) end))))))

unfoldable pub generate_signed_event :
    Hmac → GenerateSignedEventOptions → Drawn → SignedEventPayload
generate_signed_event hmac options drawn =
    let body = stringify (body_object options drawn) in
    record {
      body = body;
      x_signature = to_hex (hmac sha256 options.signing_secret (utf8 body));
      x_signature_timestamp = decimal (drawn.now / 1000);
      x_signature_algorithm = text "hmac-sha256";
      x_request_id = text "req_" ++ drawn.request_uuid;
    }

-- The options that the command line gives.
abbrev pub cli_options : Str → GenerateSignedEventOptions
cli_options signing_secret = record {
  signing_secret = signing_secret;
  event_id = none;
  source = none;
  event_type = none;
  idempotency_key = none;
  shipment_id = none;
  order_id = none;
  status = none;
}

-- The command line, with `process.env.SIGNING_SECRET`: `none` is the error, and the event is printed.
unfoldable pub sign_cli : Hmac → Option Str → Drawn → Option SignedEventPayload
unfolding is_blank generate_signed_event
sign_cli hmac none drawn = none
sign_cli hmac (some secret) drawn =
    if is_blank secret then none else some (generate_signed_event hmac (cli_options secret) drawn)
