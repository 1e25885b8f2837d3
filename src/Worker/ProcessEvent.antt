-- ===== src/Worker/ProcessEvent.antt =====
-- gateway-worker/src/processors/process-event.ts and idempotency-coordinator.ts, and the job
-- processor of gateway-worker/src/queue/worker.ts. Logging is left out.
pub mod Views
pub mod Raised
pub mod Outcome
pub mod Stages
pub mod Holding
pub mod Burial
pub mod Failure
pub mod Entered
pub mod Locked
pub mod Ends
pub mod Guarantees
pub mod Reliable
pub mod Entering
pub mod Settling
pub mod Deliveries
pub mod Unusable
pub mod Completion
pub mod Job
use fincart_assissment.Common.{
  ℕ, ◌+◌, Bool, true, false, not, Option, none, some, List, [], ◌∷◌, ◌++◌, String, ltb,
  if◌then◌else◌,
}
use fincart_assissment.Common.Text.{Str, text, is_blank}
use fincart_assissment.Contracts.{
  Value, str, Fields, get_field, QueueJobPayload, ErrorClassification,
}
use fincart_assissment.Effects.{Reply, ok, throw, return, raise, ◌>>=◌, ◌>>◌, try_catch}
use fincart_assissment.Worker.Number.Double.{Number, times}
use fincart_assissment.Worker.Retry.{
  RetryPolicyConfig, max_ℕ, calculate_backoff_delay, should_retry,
}
use fincart_assissment.Worker.Classifier.{
  Thrown, object, retryable, plain, other, error, ClassifiedError, classify_error,
}
use fincart_assissment.Worker.Records.{
  ProcessedStatus, received, processing, processed, failed, dead_lettered, DeadLetterAttempt,
  ProcessedEventRecord,
}
use fincart_assissment.Worker.World.{Platform, World, Act, on_dlq, now, random}
use fincart_assissment.Worker.Repositories.{
  attempt_entry, find_by_idempotency_key, mark_received, mark_processing, mark_processed,
  mark_failed, mark_dead_lettered, upsert_shipment, persist_dead_letter,
}

pub data SkipReason : Type 0 where
  already_processed already_dead_lettered in_progress : SkipReason

-- `{ skip: false }` and `{ skip: true; reason }`.
pub data IdempotencyDecision : Type 0 where
  proceed : IdempotencyDecision
  skip : SkipReason → IdempotencyDecision

abbrev pub decide_status : ProcessedStatus → IdempotencyDecision
decide_status processed = skip already_processed
decide_status dead_lettered = skip already_dead_lettered
decide_status processing = skip in_progress
decide_status received = proceed
decide_status failed = proceed

abbrev pub decide : Option ProcessedEventRecord → IdempotencyDecision
decide none = proceed
decide (some existing) = decide_status existing.status

-- The error that `getPayloadField` throws.
abbrev pub missing : Str → Thrown
missing key = error (text "Invalid payload: missing " ++ key)

abbrev pub field_text : Str → Option Value → Reply Thrown Str
field_text key (some (str raw)) = if is_blank raw then throw (missing key) else ok raw
field_text key _ = throw (missing key)

unfoldable pub get_payload_field : Fields → Str → Reply Thrown Str
get_payload_field payload key = field_text key (get_field payload key)

abbrev pub optional_text : Option Value → Option Str
optional_text (some (str raw)) = if is_blank raw then none else some raw
optional_text _ = none

-- `existingRecord?.attemptHistory ?? []`.
abbrev pub history_of : Option ProcessedEventRecord → List DeadLetterAttempt
history_of none = []
history_of (some d) = d.attempt_history

-- `calculateBackoffDelay(...) ?? fallback`.
abbrev pub num_or : Option Number → Number → Number
num_or none fallback = fallback
num_or (some d) fallback = d

module _ (p : Platform) where
  unfoldable pub check_idempotency : Str → Act p IdempotencyDecision
  check_idempotency key = do existing ← find_by_idempotency_key p key; return (decide existing)

  -- The body of the `try`.
  unfoldable pub apply_event : QueueJobPayload → Act p (Unit {0})
  apply_event payload = do
    shipment_id ← λ w. (w, get_payload_field payload.payload (text "shipmentId"))
    current_state ← λ w. (w, get_payload_field payload.payload (text "status"))
    upsert_shipment p (record {
      shipment_id = shipment_id;
      order_id = optional_text (get_field payload.payload (text "orderId"));
      current_state = current_state;
      last_event_id = payload.event_id;
      last_event_type = payload.event_type;
      last_event_at = payload.occurred_at;
      metadata = payload.payload;
    })
    mark_processed p payload.idempotency_key

  -- `throw new RetryableProcessingError(classified.message, delay)`.
  abbrev pub ask_retry : RetryPolicyConfig → ℕ → ClassifiedError → Number → Act p (Unit {0})
  ask_retry config attempt classified drawn = raise (
      retryable classified.message (
        num_or (calculate_backoff_delay attempt config none drawn)
          (times config.base_ms config.multiplier)))

  -- The `catch` clause when a retry is allowed.
  unfoldable pub schedule_retry :
      QueueJobPayload → RetryPolicyConfig → ℕ → ClassifiedError → Act p (Unit {0})
  schedule_retry payload config attempt classified = do
    mark_failed p payload.idempotency_key classified.code classified.message attempt
    drawn ← random p
    ask_retry config attempt classified drawn

  -- The job in the dead-letter queue, the last step.
  abbrev pub send_job :
      QueueJobPayload → ℕ → ClassifiedError → List DeadLetterAttempt → ℕ → Act p (Unit {0})
  send_job payload attempt classified history dead_lettered_at = on_dlq p (
      p.dlq_queue.add (record {
        event_id = payload.event_id;
        idempotency_key = payload.idempotency_key;
        trace_id = payload.trace_id;
        attempt_count = attempt;
        terminal_reason_code = classified.code;
        terminal_reason_message = classified.message;
        attempt_history = history;
        payload_snapshot = payload.payload;
        dead_lettered_at = dead_lettered_at;
      }))

  -- The dead letter and its job, with the history of the record found.
  abbrev pub send_letter :
      QueueJobPayload → ℕ → ClassifiedError → Option ProcessedEventRecord → Act p (Unit {0})
  send_letter payload attempt classified existing = do
    t ← now p
    let history =
        history_of existing ++ attempt_entry classified.code classified.message attempt t ∷ []
    persist_dead_letter p (record {
      event_id = payload.event_id;
      idempotency_key = payload.idempotency_key;
      event_type = payload.event_type;
      terminal_reason_code = classified.code;
      terminal_reason_message = classified.message;
      attempt_count = attempt;
      attempt_history = history;
      payload_snapshot = payload.payload;
      trace_id = payload.trace_id;
    })
    dead_lettered_at ← now p
    send_job payload attempt classified history dead_lettered_at

  -- The rest of the `catch` clause.
  unfoldable pub dead_letter : QueueJobPayload → ℕ → ClassifiedError → Act p (Unit {0})
  dead_letter payload attempt classified = do
    mark_dead_lettered p payload.idempotency_key
    existing ← find_by_idempotency_key p payload.idempotency_key
    send_letter payload attempt classified existing

  unfoldable pub handle_failure :
      QueueJobPayload → RetryPolicyConfig → ℕ → Thrown → Act p (Unit {0})
  handle_failure payload config attempt e =
      let classified = classify_error e in
      if should_retry attempt config.max_attempts classified.classification
      then schedule_retry payload config attempt classified
      else dead_letter payload attempt classified

  -- What follows `markProcessing`; `none` is a lock that was not acquired.
  unfoldable pub with_lock :
      QueueJobPayload → RetryPolicyConfig → Option ProcessedEventRecord → Act p (Unit {0})
  with_lock payload config none = return tt
  with_lock payload config (some d) =
      try_catch (apply_event payload) (handle_failure payload config d.attempt_count)

  unfoldable pub on_decision :
      QueueJobPayload → RetryPolicyConfig → IdempotencyDecision → Act p (Unit {0})
  on_decision payload config (skip reason) = return tt
  on_decision payload config proceed = do
    mark_received p (record {
      idempotency_key = payload.idempotency_key;
      event_id = payload.event_id;
      event_type = payload.event_type;
    })
    d ← mark_processing p payload.idempotency_key
    with_lock payload config d

  unfoldable pub process_event : QueueJobPayload → RetryPolicyConfig → Act p (Unit {0})
  process_event payload config = do
    decision ← check_idempotency payload.idempotency_key
    on_decision payload config decision

  -- The `catch` clause of the job processor: a delay is computed for the log, with a random number
  -- while the attempt is within the maximum, and the error is thrown again.
  abbrev pub rethrow : RetryPolicyConfig → ℕ → Thrown → Act p (Unit {0})
  rethrow config current_attempt (retryable message delay_ms) =
      if ltb config.max_attempts current_attempt
      then raise (retryable message delay_ms)
      else (do drawn ← random p; raise (retryable message delay_ms))
  rethrow config current_attempt e = raise e

  -- `createEventJobProcessor`: one job, with BullMQ's count of the attempts made.
  unfoldable pub event_job_processor : RetryPolicyConfig → QueueJobPayload → ℕ → Act p (Unit {0})
  event_job_processor config job_data attempts_made =
      let current_attempt = max_ℕ 1 (attempts_made + 1) in
      try_catch (process_event (record job_data { attempt = current_attempt }) config)
        (rethrow config current_attempt)
