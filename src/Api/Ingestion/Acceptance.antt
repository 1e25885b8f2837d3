-- ===== src/Api/Ingestion/Acceptance.antt =====
-- The controller of gateway-api/src/controllers/ingestion.controller.ts on a valid event, when the
-- queue takes its job.
use fincart_assissment.Common.{ℕ, ◌≡◌, refl, ap, Option, none, some, [], ◌∷◌, ◌++◌}
use mathlib.Core.Option.{some-injective}
use fincart_assissment.Contracts.{CourierEvent, SignatureMeta, QueueJobPayload}
use fincart_assissment.Effects.{return}
use fincart_assissment.Effects.Post.{
  Post, returned, Post-continue, Post-recover, Succeeds, Post-sure,
}
use fincart_assissment.Api.Request.{Request, Response, accepted, get_trace_id}
use fincart_assissment.Api.Validator.{Zod, validate_courier_event}
use fincart_assissment.Api.Ingestion.{
  Intake, Stores, audit_event, was_accepted, job_for, enqueue_event, report_unavailable,
  enqueue_or_report, accept, with_meta, with_body, ingestion_controller,
}
use fincart_assissment.Api.Ingestion.Outcome.{queue_of, safe_insert_ends, enqueue_event_ends}

module _ {E : Type 0} (i : Intake E)
    (takes : (job : QueueJobPayload) (q : i.queue.State) → Succeeds (i.queue.add job q)) where
  enqueue_event-Succeeds : (job : QueueJobPayload) (s : Stores i) → Succeeds (enqueue_event i job s)
  unfolding enqueue_event
  enqueue_event-Succeeds job s = takes job s.queued

  -- The job is in the queue, and the reply tells so.
  pub record Accepted (s s' : Stores i) (r : Response) (event : CourierEvent)
      (job : QueueJobPayload) : Type 0 where
    pub reply : r ≡ accepted 202 event.event_id event.idempotency_key job.trace_id job.received_at
    pub added : queue_of i s' ≡ queue_of i s ++ job ∷ []

  module _ (z : Zod) (received_at : ℕ) (request : Request) (s : Stores i) (event : CourierEvent)
      (meta : SignatureMeta) (body_valid : validate_courier_event z request.body ≡ some event)
      (given : request.signature_meta ≡ some meta) where
    abbrev job : QueueJobPayload
    job = job_for event meta (get_trace_id request) received_at

    enqueue_accepts :
        (s₁ : Stores i)
        → queue_of i s₁ ≡ queue_of i s
        → Post
            (λ s' r. Accepted s s' r event job)
            (λ _ _. ⊥)
            (enqueue_or_report i event meta (get_trace_id request) received_at s₁)
    unfolding enqueue_or_report
    enqueue_accepts s₁ same =
        Post-recover (λ _. report_unavailable i event (get_trace_id request) received_at)
          (Post-continue
            (λ _. return (
              accepted 202 event.event_id event.idempotency_key (get_trace_id request) received_at))
            (Post-sure (enqueue_event_ends i job s₁) (enqueue_event-Succeeds job s₁))
            (λ s₂ _ (same_audit, (taken, after, grown)).
              returned (record { reply = refl; added = rw same at grown }))
            (λ _ _ x. x))
          (λ _ _ h. h) (λ _ _ x. absurd x)

    accept_accepts :
        Post
          (λ s' r. Accepted s s' r event job)
          (λ _ _. ⊥)
          (accept i event meta (get_trace_id request) received_at s)
    unfolding accept
    accept_accepts =
        Post-continue (λ _. enqueue_or_report i event meta (get_trace_id request) received_at)
          (safe_insert_ends i
            (audit_event was_accepted none (get_trace_id request) event received_at) s)
          (λ s₁ _ (same, audit). enqueue_accepts s₁ (ap i.queue.entries same)) (λ _ _ x. x)

    valid_accepts :
        (body : Option CourierEvent) (found : Option SignatureMeta)
        → body ≡ some event
        → found ≡ some meta
        → Post
            (λ s' r. Accepted s s' r event job)
            (λ _ _. ⊥)
            (with_body i body found (get_trace_id request) received_at s)
    unfolding with_body with_meta
    valid_accepts none found e g = absurd (cc)
    valid_accepts (some event') none e g = absurd (cc)
    valid_accepts (some event') (some meta') e g =
        rw (some-injective _ _ e, some-injective _ _ g) accept_accepts

    -- If the body is valid, the metadata is there and the queue takes jobs, then the controller
    -- answers 202 and the job of the event is the last of the queue, even if no audit record can be
    -- written.
    pub ingestion_controller_accepts :
        Post
          (λ s' r. Accepted s s' r event job)
          (λ _ _. ⊥)
          (ingestion_controller i z received_at request s)
    unfolding ingestion_controller
    ingestion_controller_accepts =
        valid_accepts (validate_courier_event z request.body) request.signature_meta body_valid
          given
