-- ===== src/Pipeline.antt =====
-- An event on its way through the gateway: the route of gateway-api/src/routes/ingestion.routes.ts,
-- the main queue, and the job processor of gateway-worker/src/queue/worker.ts.
pub mod System
use fincart_assissment.Common.{ℕ, ◌≡◌, refl, ap, some, [], ◌∷◌, ◌++◌}
use fincart_assissment.Common.Text.{Str, text}
use fincart_assissment.Contracts.{CourierEvent, QueueJobPayload}
use fincart_assissment.Effects.{ok, return}
use fincart_assissment.Effects.Post.{Post, returned, Post-continue, Succeeds}
use fincart_assissment.Hmac.{Hmac}
use fincart_assissment.Api.Request.{Request, accepted, get_trace_id}
use fincart_assissment.Api.Validator.{Zod, validate_courier_event}
use fincart_assissment.Api.Guard.{SignatureGuardOptions, go, signature_guard}
use fincart_assissment.Api.Guard.Decision.{signature_guard_iff}
use fincart_assissment.Api.Ingestion.{Intake, Stores, job_for, after_guard, ingestion_route}
use fincart_assissment.Api.Ingestion.Outcome.{queue_of}
use fincart_assissment.Api.Ingestion.Acceptance.{ingestion_controller_accepts}
use fincart_assissment.Worker.Retry.{RetryPolicyConfig}
use fincart_assissment.Worker.World.{Platform, World}
use fincart_assissment.Worker.Repositories.Views.{record_of}
use fincart_assissment.Worker.ProcessEvent.{decide, proceed, get_payload_field, event_job_processor}
use fincart_assissment.Worker.ProcessEvent.Outcome.{Completed}
use fincart_assissment.Worker.ProcessEvent.Reliable.{IsReliable}
use fincart_assissment.Worker.ProcessEvent.Job.{numbered, event_job_processor_completes}

module _ {E : Type 0} (i : Intake E) (hmac : Hmac) (options : SignatureGuardOptions) (z : Zod)
    (guarded_at received_at : ℕ) (request : Request) (s : Stores i) (p : Platform)
    (config : RetryPolicyConfig) (attempts_made : ℕ) (w : World p) where
  -- The job of the event, once through the queue.
  pub record Delivered (event : CourierEvent) (job : QueueJobPayload) : Type 0 where
    pub same_key : job.idempotency_key ≡ event.idempotency_key
    pub same_payload : job.payload ≡ event.payload
    pub acknowledged :
        Post
          (λ s' o.
            (o ≡ some (accepted 202 event.event_id event.idempotency_key job.trace_id received_at))
            × (queue_of i s' ≡ queue_of i s ++ job ∷ []))
          (λ _ _. ⊥)
          (ingestion_route i hmac options z guarded_at received_at request s)
    pub applied :
        Post
          (λ w' _. Completed p (numbered p config job attempts_made w) config w w')
          (λ _ _. ⊥)
          (event_job_processor p config job attempts_made w)

  -- If the guard lets a request through, its body is valid, the queue takes jobs, MongoDB answers the
  -- worker, the payload of the event has its two fields, and the event has no record or one that is
  -- `received` or `failed`, then the route answers 202 with the event's job as the last of the queue,
  -- and the worker's run on that job is complete and the event was applied in full.
  pub ingestion_route-Delivered :
      (request' : Request) (event : CourierEvent)
      → signature_guard hmac options guarded_at request ≡ go request'
      → validate_courier_event z request.body ≡ some event
      → ((job : QueueJobPayload) (q : i.queue.State) → Succeeds (i.queue.add job q))
      → IsReliable p
      → decide (record_of p w event.idempotency_key) ≡ proceed
      → {shipment_id current_state : Str}
      → get_payload_field event.payload (text "shipmentId") ≡ ok shipment_id
      → get_payload_field event.payload (text "status") ≡ ok current_state
      → (job : QueueJobPayload) × Delivered event job
  unfolding ingestion_route after_guard
  ingestion_route-Delivered request' event admitted valid takes reliable is_proceed {shipment_id}
        {current_state} hs ht =
      let (meta, a, same) =
        (signature_guard_iff hmac options guarded_at request request').0 admitted in
      let checked = record request { signature_meta = some meta } in
      let job = job_for event meta (get_trace_id checked) received_at in
      (
        job,
        record {
          same_key = refl;
          same_payload = refl;
          acknowledged =
              rw (admitted, same)
                (Post-continue (λ r. return (some r))
                  (ingestion_controller_accepts i takes z received_at checked s event meta valid
                    refl)
                  (λ s' r h. returned (ap (λ x. some x) h.reply, h.added)) (λ _ _ x. x));
          applied =
              event_job_processor_completes p config job attempts_made w reliable is_proceed
                {shipment_id = shipment_id} {current_state = current_state} hs ht;
        },
      )
