-- ===== src/Worker/Records.antt =====
-- The documents of gateway-worker/src/repositories/ and the jobs of the dead-letter queue. Instants
-- are milliseconds since the epoch, which their ISO texts stand for.
use fincart_assissment.Common.{ℕ, ◌*◌, Bool, true, false, Option, List}
use fincart_assissment.Common.Text.{Str}
use fincart_assissment.Contracts.{ErrorCode, Fields}

pub data ProcessedStatus : Type 0 where
  received processing processed failed dead_lettered : ProcessedStatus

pub record DeadLetterAttempt : Type 0 where
  pub attempt : ℕ
  pub error_code : ErrorCode
  pub message : Str
  pub timestamp : ℕ

pub record ProcessedEventRecord : Type 0 where
  pub idempotency_key : Str
  pub event_id : Str
  pub event_type : Str
  pub status : ProcessedStatus
  pub attempt_count : ℕ
  pub attempt_history : List DeadLetterAttempt
  pub first_seen_at : ℕ
  pub updated_at : ℕ
  pub last_error_code : Option ErrorCode
  pub last_error_message : Option Str
  pub expires_at : Option ℕ

pub record ActiveShipmentRecord : Type 0 where
  pub shipment_id : Str
  pub order_id : Option Str
  pub current_state : Str
  pub last_event_id : Str
  pub last_event_type : Str
  pub last_event_at : Str
  pub metadata : Fields
  pub created_at : ℕ
  pub updated_at : ℕ

pub data ReviewStatus : Type 0 where
  pending reviewed replayed closed : ReviewStatus

abbrev pub is_pending : ReviewStatus → Bool
is_pending pending = true
is_pending _ = false

pub record DeadLetterEventRecord : Type 0 where
  pub event_id : Str
  pub idempotency_key : Str
  pub event_type : Str
  pub terminal_reason_code : ErrorCode
  pub terminal_reason_message : Str
  pub attempt_count : ℕ
  pub attempt_history : List DeadLetterAttempt
  pub payload_snapshot : Fields
  pub review_status : ReviewStatus
  pub created_at : ℕ
  pub expires_at : ℕ
  pub trace_id : Str

-- The data of a `dead-letter-event` job.
pub record DeadLetterJob : Type 0 where
  pub event_id : Str
  pub idempotency_key : Str
  pub trace_id : Str
  pub attempt_count : ℕ
  pub terminal_reason_code : ErrorCode
  pub terminal_reason_message : Str
  pub attempt_history : List DeadLetterAttempt
  pub payload_snapshot : Fields
  pub dead_lettered_at : ℕ

abbrev pub thirty_days_ms : ℕ
thirty_days_ms = 30 * 24 * 60 * 60 * 1000

abbrev pub ninety_days_ms : ℕ
ninety_days_ms = 90 * 24 * 60 * 60 * 1000
