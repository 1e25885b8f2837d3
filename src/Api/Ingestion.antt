-- ===== src/Api/Ingestion.antt =====
-- gateway-api/src/controllers/ingestion.controller.ts, services/enqueue-event.service.ts,
-- repositories/ingestion-record.repository.ts and routes/ingestion.routes.ts. `E` is the type of
-- the values that MongoDB and BullMQ throw, none of which leaves the controller.
pub mod Outcome
pub mod Route
pub mod Acceptance
use fincart_assissment.Common.{ℕ, Option, none, some}
use fincart_assissment.Common.Text.{Str, text}
use fincart_assissment.Contracts.{
  CourierEvent, SignatureMeta, QueueJobPayload, ErrorCode, invalid_payload, intake_unavailable,
}
use fincart_assissment.Effects.{Reply, ok, throw, Action, return, ◌>>=◌, ◌>>◌, try_catch}
use fincart_assissment.Services.{Journal}
use fincart_assissment.Hmac.{Hmac}
use fincart_assissment.Api.Request.{Request, Response, rejected, accepted, get_trace_id}
use fincart_assissment.Api.Validator.{Zod, validate_courier_event}
use fincart_assissment.Api.Guard.{SignatureGuardOptions, Check, answer, crash, go, signature_guard}

pub data IngestionOutcome : Type 0 where
  was_accepted was_rejected enqueue_failed : IngestionOutcome

pub record IngestionRecord : Type 0 where
  pub trace_id : Str
  pub event_id : Option Str
  pub idempotency_key : Option Str
  pub source : Option Str
  pub outcome : IngestionOutcome
  pub reason : Option Str
  pub created_at : ℕ

-- The main queue and the collection `ingestion_records`.
pub record Intake (E : Type 0) : Type 1 where
  pub queue : Journal E QueueJobPayload
  pub ingestion_records : Journal E IngestionRecord

pub record Stores {E : Type 0} (i : Intake E) : Type 0 where
  pub queued : i.queue.State
  pub records : i.ingestion_records.State

abbrev pub audit_rejected : Str → Str → ℕ → IngestionRecord
audit_rejected trace_id reason created_at = record {
  trace_id = trace_id;
  event_id = none;
  idempotency_key = none;
  source = none;
  outcome = was_rejected;
  reason = some reason;
  created_at = created_at;
}

abbrev pub audit_event : IngestionOutcome → Option Str → Str → CourierEvent → ℕ → IngestionRecord
audit_event outcome reason trace_id event created_at = record {
  trace_id = trace_id;
  event_id = some event.event_id;
  idempotency_key = some event.idempotency_key;
  source = some event.source;
  outcome = outcome;
  reason = reason;
  created_at = created_at;
}

abbrev pub job_for : CourierEvent → SignatureMeta → Str → ℕ → QueueJobPayload
job_for event meta trace_id received_at = record {
  event_id = event.event_id;
  event_type = event.event_type;
  occurred_at = event.occurred_at;
  source = event.source;
  signature_meta = meta;
  idempotency_key = event.idempotency_key;
  trace_id = trace_id;
  attempt = 1;
  payload = event.payload;
  received_at = received_at;
}

module _ {E : Type 0} (i : Intake E) where
  -- `safeInsert`: a failure to write the audit record is logged and forgotten.
  unfoldable pub safe_insert : IngestionRecord → Action (Stores i) E (Unit {0})
  safe_insert r =
      try_catch
        (λ s. let x = i.ingestion_records.add r s.records in (record s { records = x.0 }, x.1))
        (λ _. return tt)

  unfoldable pub enqueue_event : QueueJobPayload → Action (Stores i) E (Unit {0})
  enqueue_event payload s = let x = i.queue.add payload s.queued in (record s { queued = x.0 }, x.1)

  -- The reply when the queue does not take the job.
  unfoldable pub report_unavailable : CourierEvent → Str → ℕ → Action (Stores i) E Response
  report_unavailable event trace_id received_at = do
    safe_insert
        (audit_event enqueue_failed (some (text "Queue enqueue failed")) trace_id event received_at)
    return (rejected 503 intake_unavailable (text "Event intake temporarily unavailable") trace_id)

  -- The `try` around `enqueueEvent`, and the reply that follows it.
  unfoldable pub enqueue_or_report :
      CourierEvent → SignatureMeta → Str → ℕ → Action (Stores i) E Response
  enqueue_or_report event meta trace_id received_at =
      try_catch
        (do
          enqueue_event (job_for event meta trace_id received_at)
          return (accepted 202 event.event_id event.idempotency_key trace_id received_at))
        (λ _. report_unavailable event trace_id received_at)

  -- The handler once the body is validated and the metadata is there.
  unfoldable pub accept : CourierEvent → SignatureMeta → Str → ℕ → Action (Stores i) E Response
  accept event meta trace_id received_at = do
    safe_insert (audit_event was_accepted none trace_id event received_at)
    enqueue_or_report event meta trace_id received_at

  unfoldable pub with_meta :
      CourierEvent → Option SignatureMeta → Str → ℕ → Action (Stores i) E Response
  with_meta event none trace_id received_at = do
    safe_insert (
        audit_event was_rejected (some (text "Signature metadata unavailable")) trace_id event
          received_at)
    return (rejected 400 invalid_payload (text "Signature metadata is missing") trace_id)
  with_meta event (some meta) trace_id received_at = accept event meta trace_id received_at

  unfoldable pub with_body :
      Option CourierEvent → Option SignatureMeta → Str → ℕ → Action (Stores i) E Response
  with_body none meta trace_id received_at = do
    safe_insert (audit_rejected trace_id (text "Payload validation failed") received_at)
    return (rejected 400 invalid_payload (text "Request payload failed validation") trace_id)
  with_body (some event) meta trace_id received_at = with_meta event meta trace_id received_at

  -- `received_at` is `Date.now()` in milliseconds.
  unfoldable pub ingestion_controller : Zod → ℕ → Request → Action (Stores i) E Response
  ingestion_controller z received_at request =
      with_body (validate_courier_event z request.body) request.signature_meta
        (get_trace_id request) received_at

  -- The handler of a request after the guard; `none` is an exception of the guard.
  unfoldable pub after_guard : Zod → ℕ → Check Request → Action (Stores i) E (Option Response)
  after_guard z received_at (answer r) = return (some r)
  after_guard z received_at crash = return none
  after_guard z received_at (go request) = do
    r ← ingestion_controller z received_at request
    return (some r)

  -- `POST /v1/events/courier`, as `registerIngestionRoutes` puts it together: the guard is the
  -- `preHandler`, and the handler runs only if it has sent no reply.
  unfoldable pub ingestion_route :
      Hmac → SignatureGuardOptions → Zod → ℕ → ℕ → Request → Action (Stores i) E (Option Response)
  ingestion_route hmac options z guarded_at received_at request =
      after_guard z received_at (signature_guard hmac options guarded_at request)
