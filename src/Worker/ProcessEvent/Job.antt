-- ===== src/Worker/ProcessEvent/Job.antt =====
-- `createEventJobProcessor` of gateway-worker/src/queue/worker.ts: how a job of the queue ends.
use fincart_assissment.Common.{arith, ltb, Bool-cases, inl, inr, ℕ, ◌+◌, ◌≡◌}
use fincart_assissment.Common.Text.{Str, text}
use fincart_assissment.Worker.Repositories.Views.{record_of}
use fincart_assissment.Worker.ProcessEvent.{decide, proceed, get_payload_field}
use fincart_assissment.Worker.ProcessEvent.Outcome.{Completed}
use fincart_assissment.Worker.ProcessEvent.Reliable.{IsReliable}
use fincart_assissment.Worker.ProcessEvent.Completion.{process_event_completes}
use fincart_assissment.Contracts.{QueueJobPayload}
use fincart_assissment.Effects.{ok}
use fincart_assissment.Effects.Post.{Post, thrown, Post-recover}
use fincart_assissment.Worker.Retry.{RetryPolicyConfig, max_ℕ}
use fincart_assissment.Worker.Classifier.{Thrown, object, retryable, plain, other}
use fincart_assissment.Worker.World.{Platform, World}
use fincart_assissment.Worker.ProcessEvent.{rethrow, event_job_processor}
use fincart_assissment.Worker.ProcessEvent.Outcome.{Ended, Stopped, retried, interrupted}
use fincart_assissment.Worker.ProcessEvent.Ends.{process_event_ends}

module _ (p : Platform) (config : RetryPolicyConfig) (job_data : QueueJobPayload)
    (attempts_made : ℕ) (w : World p) where
  -- The payload that the processor passes on: the attempt is BullMQ's count and one.
  abbrev pub numbered : QueueJobPayload
  numbered = record job_data { attempt = attempts_made + 1 }

  -- Drawing a random number changes nothing that an end speaks of.
  later :
      (e : Thrown) (v : World p) (c : p.host.State)
      → Stopped p numbered config w v e
      → Stopped p numbered config w (record v { clock = c }) e
  later e v c (retried r) = retried (record {
    seen = r.seen;
    locked_at = r.locked_at;
    now = r.now;
    cause = r.cause;
    held = r.held;
    drawn = r.drawn;
    delay = r.delay;
    allowed = r.allowed;
    thrown = r.thrown;
    computed = r.computed;
    same_count = r.same_count;
    same_history = r.same_history;
    records = r.records;
    moves = r.moves;
    same_dead_letters = r.same_dead_letters;
    same_dlq = r.same_dlq;
  })
  later e v c (interrupted raised ms) = interrupted raised ms

  rethrow_ends :
      (e : Thrown) (v : World p)
      → Stopped p numbered config w v e
      → Post
          (λ w' _. Ended p numbered config w w')
          (λ w' x. Stopped p numbered config w w' x)
          (rethrow p config (attempts_made + 1) e v)
  rethrow_ends (retryable message delay_ms) v s =
      elim (Bool-cases (ltb config.max_attempts (attempts_made + 1))) [
        | inl past ↦ rw past (thrown s)
        | inr within ↦ rw within (thrown (later (retryable message delay_ms) v _ s))
      ]
  rethrow_ends (object code name message) v s = thrown s
  rethrow_ends (plain m) v s = thrown s
  rethrow_ends other v s = thrown s

  pub current_attempt : max_ℕ 1 (attempts_made + 1) ≡ attempts_made + 1
  unfolding max_ℕ
  current_attempt = ground arith

  -- A job that is complete ended in one of the normal ways of `processEvent` on its data, under
  -- BullMQ's count of the attempts; a job that fails did so with the error that `processEvent` asks for a
  -- retry with, or one that an operation on the records, the dead letters or their queue threw, and left
  -- the stores as `processEvent` leaves them then.
  pub event_job_processor_ends :
      Post
        (λ w' _. Ended p numbered config w w')
        (λ w' e. Stopped p numbered config w w' e)
        (event_job_processor p config job_data attempts_made w)
  unfolding event_job_processor
  event_job_processor_ends = rw current_attempt (
      Post-recover (rethrow p config (attempts_made + 1)) (process_event_ends p numbered config w)
        (λ w' _ h. h) (λ v e s. rethrow_ends e v s))

  -- If MongoDB answers, the payload of a job has its two fields, and its event has no record or one
  -- that is `received` or `failed`, then the job is complete and the event was applied in full.
  pub event_job_processor_completes :
      IsReliable p
      → decide (record_of p w job_data.idempotency_key) ≡ proceed
      → {shipment_id current_state : Str}
      → get_payload_field job_data.payload (text "shipmentId") ≡ ok shipment_id
      → get_payload_field job_data.payload (text "status") ≡ ok current_state
      → Post
          (λ w' _. Completed p numbered config w w')
          (λ _ _. ⊥)
          (event_job_processor p config job_data attempts_made w)
  unfolding event_job_processor
  event_job_processor_completes reliable is_proceed {shipment_id} {current_state} has_shipment_id
        has_status =
      rw current_attempt (
        Post-recover (rethrow p config (attempts_made + 1))
          (process_event_completes p reliable numbered config w is_proceed
            {shipment_id = shipment_id} {current_state = current_state} has_shipment_id has_status)
          (λ _ _ h. h) (λ _ _ x. absurd x))
