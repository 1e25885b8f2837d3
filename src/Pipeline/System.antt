-- ===== src/Pipeline/System.antt =====
-- The gateway and the worker together: requests that arrive one after the other at the route of
-- gateway-api/src/routes/ingestion.routes.ts, the main queue, and the jobs of
-- gateway-worker/src/queue/worker.ts in its order.
use fincart_assissment.Common.{
  ℕ, ◌≡◌, refl, sym, ap, ◌∙◌, inl, inr, Option, none, some, List, [], ◌∷◌, ◌++◌, map, ◌==◌,
  if◌then◌else◌,
}
use mathlib.Core.List.{append-nil, append_assoc, map-append}
use fincart_assissment.Common.Text.{Str}
use fincart_assissment.Contracts.{CourierEvent, SignatureMeta, QueueJobPayload}
use fincart_assissment.Effects.{Action, return, ◌>>=◌}
use fincart_assissment.Effects.Post.{Post, returned, Post-continue, Post-weaken, Succeeds}
use fincart_assissment.Hmac.{Hmac}
use fincart_assissment.Worker.Retry.{RetryPolicyConfig}
use fincart_assissment.Worker.World.{Platform, World}
use fincart_assissment.Worker.ProcessEvent.Reliable.{IsReliable, TakesLetters}
use fincart_assissment.Worker.Backlog.{run_backlog, Represents}
use fincart_assissment.Worker.Backlog.Abstract.{Ledger, book_all}
use fincart_assissment.Worker.Backlog.Booking.{run_backlog-book_all}
use fincart_assissment.Api.Request.{Request, Response, rejected, accepted, get_trace_id}
use fincart_assissment.Api.Validator.{Zod, validate_courier_event}
use fincart_assissment.Api.Guard.{SignatureGuardOptions, Check, answer, crash, go, signature_guard}
use fincart_assissment.Api.Guard.Refusals.{Refuses, signature_guard-Refuses}
use fincart_assissment.Api.Ingestion.{
  Intake, Stores, job_for, after_guard, ingestion_controller, ingestion_route,
}
use fincart_assissment.Api.Ingestion.Outcome.{
  queue_of, Handled, invalid_body, no_metadata, enqueued, unavailable, ingestion_controller_ends,
}
use fincart_assissment.Api.Ingestion.Acceptance.{ingestion_controller_accepts}

-- A request, and the clock in the guard and in the controller.
pub record Arrival : Type 0 where
  pub request : Request
  pub guarded_at : ℕ
  pub received_at : ℕ

-- The keys that a reply acknowledges, by 202.
abbrev pub acknowledged : Option Response → List Str
acknowledged (some (accepted status event_id idempotency_key trace_id received_at)) =
    if status == 202 then idempotency_key ∷ [] else []
acknowledged (some (rejected status error_code message trace_id)) = []
acknowledged none = []

abbrev pub acknowledged_by : List (Option Response) → List Str
acknowledged_by [] = []
acknowledged_by (o ∷ os) = acknowledged o ++ acknowledged_by os

abbrev pub key_of : QueueJobPayload → Str
key_of job = job.idempotency_key

abbrev pub job_if : ℕ → Str → Option CourierEvent → Option SignatureMeta → List QueueJobPayload
job_if received_at trace_id (some event) (some meta) = job_for event meta trace_id received_at ∷ []
job_if received_at trace_id (some event) none = []
job_if received_at trace_id none meta = []

module _ {E : Type 0} (i : Intake E) (hmac : Hmac) (options : SignatureGuardOptions) (z : Zod) where
  abbrev pub job_after : ℕ → Check Request → List QueueJobPayload
  job_after received_at (answer r) = []
  job_after received_at crash = []
  job_after received_at (go request) =
      job_if received_at (get_trace_id request) (validate_courier_event z request.body)
        request.signature_meta

  -- The job of a request: there is one if the guard lets it through and its body is valid.
  abbrev pub job_of_arrival : Arrival → List QueueJobPayload
  job_of_arrival a = job_after a.received_at (signature_guard hmac options a.guarded_at a.request)

  abbrev pub jobs_of : List Arrival → List QueueJobPayload
  jobs_of [] = []
  jobs_of (a ∷ arrivals) = job_of_arrival a ++ jobs_of arrivals

  -- The route on every request, and its replies.
  unfoldable pub run_requests : List Arrival → Action (Stores i) E (List (Option Response))
  run_requests [] = return []
  run_requests (a ∷ arrivals) = do
    o ← ingestion_route i hmac options z a.guarded_at a.received_at a.request
    os ← run_requests arrivals
    return (o ∷ os)

  module _
      (takes : (job : QueueJobPayload) (q : i.queue.State) → Succeeds (i.queue.add job q)) where
    -- The queue grew by these jobs, and their keys are what was acknowledged.
    abbrev Took : Stores i → List QueueJobPayload → Stores i → List Str → Type 0
    Took s jobs s' keys = (queue_of i s' ≡ queue_of i s ++ jobs) × (keys ≡ map key_of jobs)

    controller-Took :
        (received_at : ℕ) (request : Request) (s : Stores i) (body : Option CourierEvent)
        (meta : Option SignatureMeta)
        → validate_courier_event z request.body ≡ body
        → request.signature_meta ≡ meta
        → Post
            (λ s' r.
              Took s
                (job_if received_at (get_trace_id request) body meta)
                s'
                (acknowledged (some r)))
            (λ _ _. ⊥)
            (ingestion_controller i z received_at request s)
    controller-Took received_at request s (some event) (some meta) e f =
        Post-weaken (ingestion_controller_accepts i takes z received_at request s event meta e f)
          (λ s' r a. (a.added, ap (λ x. acknowledged (some x)) a.reply)) (λ _ _ x. x)
    controller-Took received_at request s none meta e f =
        Post-weaken (ingestion_controller_ends i z received_at request s) (λ s' r h. by_end s' r h)
          (λ _ _ x. x)
      where
        by_end :
            (s' : Stores i) (r : Response)
            → Handled i z received_at request s s' r
            → Took s [] s' (acknowledged (some r))
        by_end s' r (invalid_body invalid reply same audit) =
            (ap i.queue.entries same ∙ sym (append-nil _), ap (λ x. acknowledged (some x)) reply)
        by_end s' r (no_metadata event valid given reply same audit) = absurd (cc)
        by_end s' r (enqueued event meta valid given reply grown audit) = absurd (cc)
        by_end s' r (unavailable event meta audit valid given reply perhaps first second) =
            absurd (cc)
    controller-Took received_at request s (some event) none e f =
        Post-weaken (ingestion_controller_ends i z received_at request s) (λ s' r h. by_end s' r h)
          (λ _ _ x. x)
      where
        by_end :
            (s' : Stores i) (r : Response)
            → Handled i z received_at request s s' r
            → Took s [] s' (acknowledged (some r))
        by_end s' r (invalid_body invalid reply same audit) = absurd (cc)
        by_end s' r (no_metadata event valid given reply same audit) =
            (ap i.queue.entries same ∙ sym (append-nil _), ap (λ x. acknowledged (some x)) reply)
        by_end s' r (enqueued event meta valid given reply grown audit) = absurd (cc)
        by_end s' r (unavailable event meta audit valid given reply perhaps first second) =
            absurd (cc)

    refused-Took :
        (trace_id : Str) (s : Stores i) (c : Check Request) (received_at : ℕ)
        → Refuses trace_id c
        → Post
            (λ s' o. Took s (job_after received_at c) s' (acknowledged o))
            (λ _ _. ⊥)
            (after_guard i z received_at c s)
    unfolding after_guard
    refused-Took trace_id s (answer r) received_at (message, inl e) =
        returned (sym (append-nil _), ap (λ x. acknowledged (some x)) e)
    refused-Took trace_id s (answer r) received_at (message, inr e) =
        returned (sym (append-nil _), ap (λ x. acknowledged (some x)) e)
    refused-Took trace_id s crash received_at h = absurd h
    refused-Took trace_id s (go request) received_at h =
        Post-continue (λ r. return (some r))
          (controller-Took received_at request s (validate_courier_event z request.body)
            request.signature_meta refl refl)
          (λ s' r took. returned took) (λ _ _ x. x)

    ingestion_route-Took :
        (a : Arrival) (s : Stores i)
        → Post
            (λ s' o. Took s (job_of_arrival a) s' (acknowledged o))
            (λ _ _. ⊥)
            (ingestion_route i hmac options z a.guarded_at a.received_at a.request s)
    unfolding ingestion_route
    ingestion_route-Took a s =
        refused-Took (get_trace_id a.request) s
          (signature_guard hmac options a.guarded_at a.request) a.received_at
          (signature_guard-Refuses hmac options a.guarded_at a.request)

    run_requests-Took :
        (arrivals : List Arrival) (s : Stores i)
        → Post
            (λ s' os. Took s (jobs_of arrivals) s' (acknowledged_by os))
            (λ _ _. ⊥)
            (run_requests arrivals s)
    unfolding run_requests
    run_requests-Took [] s = returned (sym (append-nil _), refl)
    run_requests-Took (a ∷ arrivals) s =
        Post-continue (λ o. run_requests arrivals >>= λ os. return (o ∷ os))
          (ingestion_route-Took a s)
          (λ s₁ o (grown, first).
            Post-continue (λ os. return (o ∷ os)) (run_requests-Took arrivals s₁)
              (λ s₂ os (more, rest). returned (
                more
                    ∙ ap (λ q. q ++ jobs_of arrivals) grown
                    ∙ append_assoc (queue_of i s) (job_of_arrival a) (jobs_of arrivals),
                ap (λ ks. ks ++ acknowledged_by os) first
                    ∙ ap (λ ks. map key_of (job_of_arrival a) ++ ks) rest
                    ∙ sym (map-append key_of (job_of_arrival a) (jobs_of arrivals)),
              ))
              (λ _ _ x. x))
          (λ _ _ x. x)

    -- If the main queue takes jobs, MongoDB and the dead-letter queue answer the worker, and the queue
    -- is empty, then after any requests that arrived one after the other the queue has the jobs of those
    -- that the guard lets through with a valid body, in their order, and their keys are the ones that
    -- were acknowledged by 202. The worker then works all of them off, and the stores, as a ledger has
    -- them at first, are as it has them with those jobs booked: an acknowledged event that is not done
    -- with is applied to its shipment or given up, once, however often it was sent.
    pub run_requests-book_all :
        (p : Platform) (config : RetryPolicyConfig)
        → IsReliable p
        → TakesLetters p
        → (arrivals : List Arrival) (s : Stores i) (w : World p) (l : Ledger) → queue_of i s ≡ []
        → Represents p config w l
        → Post
            (λ s' replies.
              (acknowledged_by replies ≡ map key_of (queue_of i s'))
              × (queue_of i s' ≡ jobs_of arrivals)
              × Post
                  (λ w' _. Represents p config w' (book_all (jobs_of arrivals) l))
                  (λ _ _. ⊥)
                  (run_backlog p config (queue_of i s') w))
            (λ _ _. ⊥)
            (run_requests arrivals s)
    run_requests-book_all p config reliable letters arrivals s w l at_first h =
        Post-weaken (run_requests-Took arrivals s)
          (λ s' replies (grown, keys).
            let all : queue_of i s' ≡ jobs_of arrivals =
              grown ∙ ap (λ q. q ++ jobs_of arrivals) at_first in
            (
              keys ∙ ap (map key_of) (sym all),
              all,
              rw all (run_backlog-book_all p config reliable letters (jobs_of arrivals) w l h),
            ))
          (λ _ _ x. x)
