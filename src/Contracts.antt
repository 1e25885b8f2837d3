-- ===== src/Contracts.antt =====
-- packages/shared/src/contracts/: the event and error contracts.
use fincart_assissment.Common.{ℕ, Bool, Option, none, some, if◌then◌else◌}
use fincart_assissment.Common.Text.{Str, str_eq}

pub data HmacAlgorithm : Type 0 where
  sha256 sha512 : HmacAlgorithm

pub data ErrorCode : Type 0 where
  invalid_signature invalid_payload intake_unavailable : ErrorCode
  transient_dependency_failure permanent_failure dlq_exhausted : ErrorCode
  retry_limit_exceeded idempotency_conflict unknown_error : ErrorCode

pub data ErrorClassification : Type 0 where
  transient permanent : ErrorClassification

-- A JSON value. A number is kept by its JSON text: no code here computes with one.
mutual
  pub data Value : Type 0 where
    null : Value
    bool : Bool → Value
    num : Str → Value
    str : Str → Value
    arr : Items → Value
    obj : Fields → Value

  pub data Items : Type 0 where
    nil : Items
    cons : Value → Items → Items

  pub data Fields : Type 0 where
    end : Fields
    field : Str → Value → Fields → Fields

-- `payload[key]`; `none` is `undefined`.
unfoldable pub get_field : Fields → Str → Option Value
unfolding str_eq
get_field end key = none
get_field (field k v fs) key = if str_eq k key then some v else get_field fs key

pub record SignatureMeta : Type 0 where
  pub algorithm : HmacAlgorithm
  pub timestamp : ℕ
  pub signature_header : Str

pub record CourierEvent : Type 0 where
  pub event_id : Str
  pub event_type : Str
  pub occurred_at : Str
  pub source : Str
  pub idempotency_key : Str
  pub payload : Fields

-- Instants (`receivedAt`) are milliseconds since the epoch, which their ISO texts stand for.
pub record QueueJobPayload : Type 0 where
  pub event_id : Str
  pub event_type : Str
  pub occurred_at : Str
  pub source : Str
  pub signature_meta : SignatureMeta
  pub idempotency_key : Str
  pub trace_id : Str
  pub attempt : ℕ
  pub payload : Fields
  pub received_at : ℕ
