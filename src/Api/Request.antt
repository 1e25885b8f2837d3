-- ===== src/Api/Request.antt =====
-- What the service reads of a Fastify request, and the bodies of its replies
-- (gateway-api/src/middleware/signature-guard.ts, gateway-api/src/controllers/ingestion.controller.ts).
use fincart_assissment.Common.{ℕ, not, Option, List, if◌then◌else◌}
use fincart_assissment.Common.Text.{Str, is_blank}
use fincart_assissment.Contracts.{Value, SignatureMeta, ErrorCode}
use fincart_assissment.Hmac.{Buffer}

-- A header: absent, given once, or given several times.
pub data Header : Type 0 where
  absent : Header
  single : Str → Header
  repeated : List Str → Header

-- `request.rawBody`.
pub data RawBody : Type 0 where
  no_body : RawBody
  text_body : Str → RawBody
  buffer : Buffer → RawBody

pub record Request : Type 0 where
  pub id : Str
  pub x_request_id : Header
  pub x_signature : Header
  pub x_signature_timestamp : Header
  pub x_signature_algorithm : Header
  pub raw_body : RawBody
  pub body : Value
  pub signature_meta : Option SignatureMeta

-- `reply.status(...).send(...)`: an error, or the acknowledgement of an event.
pub data Response : Type 0 where
  rejected : (status : ℕ) (error_code : ErrorCode) (message trace_id : Str) → Response
  accepted : (status : ℕ) (event_id idempotency_key trace_id : Str) (received_at : ℕ) → Response

trace_id_of : Header → Str → Str
trace_id_of (single s) id = if not (is_blank s) then s else id
trace_id_of _ id = id

unfoldable pub get_trace_id : Request → Str
unfolding trace_id_of
get_trace_id request = trace_id_of request.x_request_id request.id
