-- ===== src/Worker/ProcessEvent/Outcome.antt =====
-- The ways in which `processEvent` ends.
use fincart_assissment.Common.{ℕ, ◌≡◌, true, false, Option, none, some, List, [], ◌∷◌, ◌++◌}
use fincart_assissment.Common.Text.{Str, text}
use fincart_assissment.Contracts.{get_field, QueueJobPayload}
use fincart_assissment.Effects.{ok}
use fincart_assissment.Worker.Number.Double.{Number}
use fincart_assissment.Worker.Retry.{RetryPolicyConfig, should_retry, calculate_backoff_delay}
use fincart_assissment.Worker.Classifier.{Thrown, retryable, ClassifiedError, classify_error}
use fincart_assissment.Services.{Written, Same, upserted}
use fincart_assissment.Worker.World.{Platform, World}
use fincart_assissment.Worker.Records.{
  DeadLetterAttempt, ProcessedEventRecord, processed, dead_lettered, DeadLetterJob,
}
use fincart_assissment.Worker.Repositories.{
  Received, new_record, is_open, started, closed_as, failed_with, attempt_entry, ShipmentUpdate,
  set_shipment, new_shipment, DeadLetter, new_dead_letter,
}
use fincart_assissment.Worker.Repositories.Views.{
  record_of, shipment_of, dead_letters_of, dlq_of, Elsewhere,
}
use fincart_assissment.Worker.Lifecycle.{Moves}
use fincart_assissment.Worker.ProcessEvent.Raised.{Raised}
use fincart_assissment.Worker.ProcessEvent.{get_payload_field, optional_text}

abbrev pub received_of : QueueJobPayload → Received
received_of payload = record {
  idempotency_key = payload.idempotency_key;
  event_id = payload.event_id;
  event_type = payload.event_type;
}

-- The shipment that a payload with these two fields describes.
abbrev pub shipment_update : QueueJobPayload → Str → Str → ShipmentUpdate
shipment_update payload shipment_id current_state = record {
  shipment_id = shipment_id;
  order_id = optional_text (get_field payload.payload (text "orderId"));
  current_state = current_state;
  last_event_id = payload.event_id;
  last_event_type = payload.event_type;
  last_event_at = payload.occurred_at;
  metadata = payload.payload;
}

-- The record that `markReceived` finds or makes.
abbrev pub entered : Received → ℕ → Option ProcessedEventRecord → ProcessedEventRecord
entered r now none = new_record r now
entered r now (some d) = d

-- The dead letter and the job of an event, and the history that both carry.
abbrev pub full_history : ProcessedEventRecord → ClassifiedError → ℕ → List DeadLetterAttempt
full_history d classified now =
    d.attempt_history ++ attempt_entry classified.code classified.message d.attempt_count now ∷ []

abbrev pub letter_of : QueueJobPayload → ℕ → ClassifiedError → List DeadLetterAttempt → DeadLetter
letter_of payload attempt classified history = record {
  event_id = payload.event_id;
  idempotency_key = payload.idempotency_key;
  event_type = payload.event_type;
  terminal_reason_code = classified.code;
  terminal_reason_message = classified.message;
  attempt_count = attempt;
  attempt_history = history;
  payload_snapshot = payload.payload;
  trace_id = payload.trace_id;
}

abbrev pub job_of :
    QueueJobPayload → ℕ → ClassifiedError → List DeadLetterAttempt → ℕ → DeadLetterJob
job_of payload attempt classified history now = record {
  event_id = payload.event_id;
  idempotency_key = payload.idempotency_key;
  trace_id = payload.trace_id;
  attempt_count = attempt;
  terminal_reason_code = classified.code;
  terminal_reason_message = classified.message;
  attempt_history = history;
  payload_snapshot = payload.payload;
  dead_lettered_at = now;
}

module _ (p : Platform) (payload : QueueJobPayload) (config : RetryPolicyConfig) (w : World p) where
  -- The record as the worker has locked it.
  abbrev pub locked : ℕ → ℕ → ProcessedEventRecord
  locked seen now =
      started now (entered (received_of payload) seen (record_of p w payload.idempotency_key))

  -- The event had been received before, and its record is closed or in the hands of a worker.
  pub record Skipped (w' : World p) : Type 0 where
    pub existing : ProcessedEventRecord
    pub found : record_of p w payload.idempotency_key ≡ some existing
    pub closed : is_open existing.status ≡ false
    pub same_records : Same (record_of p w) (record_of p w')
    pub elsewhere : Elsewhere p w w'

  -- The event was applied to its shipment, and its record is `processed`.
  pub record Completed (w' : World p) : Type 0 where
    pub seen : ℕ
    pub locked_at : ℕ
    pub now : ℕ
    pub later : ℕ
    pub shipment_id : Str
    pub current_state : Str
    pub has_shipment_id : get_payload_field payload.payload (text "shipmentId") ≡ ok shipment_id
    pub has_status : get_payload_field payload.payload (text "status") ≡ ok current_state
    pub records :
        Written
          (record_of p w)
          (record_of p w')
          payload.idempotency_key
          (some (closed_as processed now later (locked seen locked_at)))
    pub moves : (j : Str) → Moves config.max_attempts (record_of p w j) (record_of p w' j)
    pub stored : ℕ
    pub shipments : Written (shipment_of p w) (shipment_of p w') shipment_id (
        upserted
          (set_shipment (shipment_update payload shipment_id current_state) stored)
          (new_shipment (shipment_update payload shipment_id current_state) stored)
          (shipment_of p w shipment_id))
    pub same_dead_letters : dead_letters_of p w' ≡ dead_letters_of p w
    pub same_dlq : dlq_of p w' ≡ dlq_of p w

  -- The event will not be tried again: its record is `dead_lettered`, and the dead letter and its
  -- job were added.
  pub record Buried (w' : World p) : Type 0 where
    pub seen : ℕ
    pub locked_at : ℕ
    pub now : ℕ
    pub later : ℕ
    pub cause : Thrown
    pub noted : ℕ
    pub created : ℕ
    pub expires_from : ℕ
    pub queued : ℕ
    pub given_up :
        should_retry
          (locked seen locked_at).attempt_count
          config.max_attempts
          (classify_error cause).classification
        ≡ false
    pub records :
        Written
          (record_of p w)
          (record_of p w')
          payload.idempotency_key
          (some (closed_as dead_lettered now later (locked seen locked_at)))
    pub moves : (j : Str) → Moves config.max_attempts (record_of p w j) (record_of p w' j)
    pub dead_letters :
        dead_letters_of p w'
        ≡ dead_letters_of p w
          ++ new_dead_letter
              (letter_of payload
                (locked seen locked_at).attempt_count
                (classify_error cause)
                (full_history (locked seen locked_at) (classify_error cause) noted))
              created
              expires_from
            ∷ []
    pub jobs :
        dlq_of p w'
        ≡ dlq_of p w
          ++ job_of payload
              (locked seen locked_at).attempt_count
              (classify_error cause)
              (full_history (locked seen locked_at) (classify_error cause) noted)
              queued
            ∷ []

  -- The normal ends.
  pub data Ended (w' : World p) : Type 0 where
    skipped : Skipped w' → Ended w'
    completed : Completed w' → Ended w'
    buried : Buried w' → Ended w'

  -- The attempt is in the history of the record, which is `failed` and can be tried again; the
  -- error tells how long to wait.
  pub record Retried (w' : World p) (e : Thrown) : Type 0 where
    pub seen : ℕ
    pub locked_at : ℕ
    pub now : ℕ
    pub cause : Thrown
    pub held : ProcessedEventRecord
    pub drawn : Number
    pub delay : Number
    pub allowed :
        should_retry
          (locked seen locked_at).attempt_count
          config.max_attempts
          (classify_error cause).classification
        ≡ true
    pub thrown : e ≡ retryable (classify_error cause).message delay
    pub computed :
        calculate_backoff_delay (locked seen locked_at).attempt_count config none drawn ≡ some delay
    pub same_count : held.attempt_count ≡ (locked seen locked_at).attempt_count
    pub same_history : held.attempt_history ≡ (locked seen locked_at).attempt_history
    pub records : Written (record_of p w) (record_of p w') payload.idempotency_key (
        some (
          failed_with
            (classify_error cause).code
            (classify_error cause).message
            (locked seen locked_at).attempt_count
            now
            held))
    pub moves : (j : Str) → Moves config.max_attempts (record_of p w j) (record_of p w' j)
    pub same_dead_letters : dead_letters_of p w' ≡ dead_letters_of p w
    pub same_dlq : dlq_of p w' ≡ dlq_of p w

  -- The ends by an exception: the retry that `processEvent` asks for, or an error that a service threw,
  -- after which every record has made moves of its life only.
  pub data Stopped (w' : World p) (e : Thrown) : Type 0 where
    retried : Retried w' e → Stopped w' e
    interrupted :
        Raised p e
        → ((j : Str) → Moves config.max_attempts (record_of p w j) (record_of p w' j))
        → Stopped w' e
