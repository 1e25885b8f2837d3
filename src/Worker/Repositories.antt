-- ===== src/Worker/Repositories.antt =====
-- gateway-worker/src/repositories/. The `catch` clauses of the methods log the error and throw it
-- again; logging is left out.
pub mod Views
pub mod Writes
pub mod Shipments
pub mod Letters
use fincart_assissment.Common.{
  ℕ, suc, ◌+◌, Bool, true, false, Option, none, some, List, [], ◌∷◌, ◌++◌,
}
use fincart_assissment.Common.Text.{Str}
use fincart_assissment.Contracts.{ErrorCode, Fields}
use fincart_assissment.Effects.{ok, ◌>>=◌, ◌>>◌}
use fincart_assissment.Services.{Collection}
use fincart_assissment.Worker.World.{
  Platform, World, Act, on_processed, on_shipments, on_dead_letters, now,
}
use fincart_assissment.Worker.Records.{
  ProcessedStatus, received, processing, processed, failed, dead_lettered, DeadLetterAttempt,
  ProcessedEventRecord, ActiveShipmentRecord, DeadLetterEventRecord, pending, thirty_days_ms,
  ninety_days_ms,
}

-- The argument of `markReceived`.
pub record Received : Type 0 where
  pub idempotency_key : Str
  pub event_id : Str
  pub event_type : Str

abbrev pub new_record : Received → ℕ → ProcessedEventRecord
new_record r now = record {
  idempotency_key = r.idempotency_key;
  event_id = r.event_id;
  event_type = r.event_type;
  status = received;
  attempt_count = 0;
  attempt_history = [];
  first_seen_at = now;
  updated_at = now;
  last_error_code = none;
  last_error_message = none;
  expires_at = none;
}

-- `status: { $in: ['received', 'failed'] }`.
abbrev pub is_open : ProcessedStatus → Bool
is_open received = true
is_open failed = true
is_open _ = false

abbrev pub started : ℕ → ProcessedEventRecord → ProcessedEventRecord
started now d = record d {
  status = processing;
  updated_at = now;
  attempt_count = d.attempt_count + 1;
}

abbrev pub closed_as : ProcessedStatus → ℕ → ℕ → ProcessedEventRecord → ProcessedEventRecord
closed_as status now later d = record d {
  status = status;
  updated_at = now;
  expires_at = some (later + thirty_days_ms);
}

abbrev pub attempt_entry : ErrorCode → Str → ℕ → ℕ → DeadLetterAttempt
attempt_entry code message attempt now = record {
  attempt = attempt;
  error_code = code;
  message = message;
  timestamp = now;
}

abbrev pub failed_with : ErrorCode → Str → ℕ → ℕ → ProcessedEventRecord → ProcessedEventRecord
failed_with code message attempt now d = record d {
  status = failed;
  last_error_code = some code;
  last_error_message = some message;
  updated_at = now;
  attempt_history = d.attempt_history ++ attempt_entry code message attempt now ∷ [];
}

-- The argument of `upsertShipment`.
pub record ShipmentUpdate : Type 0 where
  pub shipment_id : Str
  pub order_id : Option Str
  pub current_state : Str
  pub last_event_id : Str
  pub last_event_type : Str
  pub last_event_at : Str
  pub metadata : Fields

abbrev pub set_shipment : ShipmentUpdate → ℕ → ActiveShipmentRecord → ActiveShipmentRecord
set_shipment r now d = record d {
  shipment_id = r.shipment_id;
  order_id = r.order_id;
  current_state = r.current_state;
  last_event_id = r.last_event_id;
  last_event_type = r.last_event_type;
  last_event_at = r.last_event_at;
  metadata = r.metadata;
  updated_at = now;
}

abbrev pub new_shipment : ShipmentUpdate → ℕ → ActiveShipmentRecord
new_shipment r now = record {
  shipment_id = r.shipment_id;
  order_id = r.order_id;
  current_state = r.current_state;
  last_event_id = r.last_event_id;
  last_event_type = r.last_event_type;
  last_event_at = r.last_event_at;
  metadata = r.metadata;
  created_at = now;
  updated_at = now;
}

-- The argument of `persistDeadLetter`.
pub record DeadLetter : Type 0 where
  pub event_id : Str
  pub idempotency_key : Str
  pub event_type : Str
  pub terminal_reason_code : ErrorCode
  pub terminal_reason_message : Str
  pub attempt_count : ℕ
  pub attempt_history : List DeadLetterAttempt
  pub payload_snapshot : Fields
  pub trace_id : Str

abbrev pub new_dead_letter : DeadLetter → ℕ → ℕ → DeadLetterEventRecord
new_dead_letter r now later = record {
  event_id = r.event_id;
  idempotency_key = r.idempotency_key;
  event_type = r.event_type;
  terminal_reason_code = r.terminal_reason_code;
  terminal_reason_message = r.terminal_reason_message;
  attempt_count = r.attempt_count;
  attempt_history = r.attempt_history;
  payload_snapshot = r.payload_snapshot;
  review_status = pending;
  created_at = now;
  expires_at = later + ninety_days_ms;
  trace_id = r.trace_id;
}

module _ (p : Platform) where
  unfoldable pub find_by_idempotency_key : Str → Act p (Option ProcessedEventRecord)
  find_by_idempotency_key key = on_processed p (p.processed_events.find_one key)

  unfoldable pub mark_received : Received → Act p (Unit {0})
  mark_received r = do
    t ← now p
    on_processed p (p.processed_events.upsert r.idempotency_key (λ d. d) (new_record r t))

  unfoldable pub mark_processing : Str → Act p (Option ProcessedEventRecord)
  mark_processing key = do
    t ← now p
    on_processed p (p.processed_events.update key (λ d. is_open d.status) (started t))

  unfoldable pub mark_processed : Str → Act p (Unit {0})
  mark_processed key = do
    t ← now p
    later ← now p
    on_processed p (p.processed_events.update key (λ _. true) (closed_as processed t later))
    λ w. (w, ok tt)

  unfoldable pub mark_failed : Str → ErrorCode → Str → ℕ → Act p (Unit {0})
  mark_failed key code message attempt = do
    t ← now p
    on_processed p (p.processed_events.update key (λ _. true) (failed_with code message attempt t))
    λ w. (w, ok tt)

  unfoldable pub mark_dead_lettered : Str → Act p (Unit {0})
  mark_dead_lettered key = do
    t ← now p
    later ← now p
    on_processed p (p.processed_events.update key (λ _. true) (closed_as dead_lettered t later))
    λ w. (w, ok tt)

  unfoldable pub upsert_shipment : ShipmentUpdate → Act p (Unit {0})
  upsert_shipment r = do
    t ← now p
    on_shipments p (p.active_shipments.upsert r.shipment_id (set_shipment r t) (new_shipment r t))

  unfoldable pub find_by_shipment_id : Str → Act p (Option ActiveShipmentRecord)
  find_by_shipment_id id = on_shipments p (p.active_shipments.find_one id)

  unfoldable pub persist_dead_letter : DeadLetter → Act p (Unit {0})
  persist_dead_letter r = do
    t ← now p
    later ← now p
    on_dead_letters p (p.dead_letter_events.add (new_dead_letter r t later))
