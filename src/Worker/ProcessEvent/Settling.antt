-- ===== src/Worker/ProcessEvent/Settling.antt =====
-- `processEvent` when MongoDB answers the operations on the records and both stores of dead letters
-- take them (gateway-worker/src/processors/process-event.ts): an attempt never leaves its record
-- locked.
use fincart_assissment.Common.{ℕ, ◌≡◌, ◌⊎◌, inl, inr, some, Bool-cases}
use fincart_assissment.Common.Text.{Str}
use fincart_assissment.Contracts.{QueueJobPayload}
use fincart_assissment.Effects.Post.{Post, Post-recover, Post-weaken, Post-sure}
use fincart_assissment.Services.{Written}
use fincart_assissment.Worker.Retry.{RetryPolicyConfig, should_retry}
use fincart_assissment.Worker.Classifier.{Thrown, classify_error}
use fincart_assissment.Worker.World.{Platform, World}
use fincart_assissment.Worker.Repositories.Views.{record_of, Elsewhere}
use fincart_assissment.Worker.ProcessEvent.{
  proceed, decide, handle_failure, with_lock, process_event,
}
use fincart_assissment.Worker.ProcessEvent.Views.{Written-at}
use fincart_assissment.Worker.ProcessEvent.Outcome.{locked, Completed, Buried, Retried}
use fincart_assissment.Worker.ProcessEvent.Stages.{apply_event_ends}
use fincart_assissment.Worker.ProcessEvent.Holding.{Holding}
use fincart_assissment.Worker.ProcessEvent.Burial.{dead_letter_ends}
use fincart_assissment.Worker.ProcessEvent.Failure.{schedule_retry_retries}
use fincart_assissment.Worker.ProcessEvent.Locked.{Applied-Completed, still_held}
use fincart_assissment.Worker.ProcessEvent.Reliable.{
  AnswersRecords, TakesLetters, mark_failed-Succeeds, dead_letter-Succeeds,
}
use fincart_assissment.Worker.ProcessEvent.Entering.{entering}

module _ (p : Platform) (reliable : AnswersRecords p) (takes : TakesLetters p)
    (payload : QueueJobPayload) (config : RetryPolicyConfig) (w : World p)
    (is_proceed : decide (record_of p w payload.idempotency_key) ≡ proceed) where
  abbrev key : Str
  key = payload.idempotency_key

  -- A return is an end of the event, and a throw is a retry that was written down.
  abbrev Settles : World p → Type 0
  Settles v = Completed p payload config w v ⊎ Buried p payload config w v

  handle_failure-Settles :
      (seen locked_at : ℕ) (cause : Thrown) (v : World p)
      → Holding p payload config w seen locked_at v
      → Post
          (λ v' _. Settles v')
          (λ v' e. Retried p payload config w v' e)
          (handle_failure p payload config
            (locked p payload config w seen locked_at).attempt_count
            cause
            v)
  unfolding handle_failure
  handle_failure-Settles seen locked_at cause v h =
      let attempt = (locked p payload config w seen locked_at).attempt_count in
      let classified = classify_error cause in
      elim (Bool-cases (should_retry attempt config.max_attempts classified.classification)) [
        | inl allowed ↦ rw allowed (
            Post-weaken
              (schedule_retry_retries p payload config w seen locked_at cause v h
                (mark_failed-Succeeds p reliable key classified.code classified.message attempt v)
                allowed)
              (λ _ _ x. absurd x) (λ _ _ r. r))
        | inr given_up ↦ rw given_up (
            Post-weaken
              (Post-sure (dead_letter_ends p payload config w seen locked_at cause v h given_up)
                (dead_letter-Succeeds p reliable takes payload attempt classified v))
              (λ _ _ b. inr b) (λ _ _ x. absurd x))
      ]

  with_lock-Settles :
      (seen locked_at : ℕ) (v : World p)
      → Written
          (record_of p w)
          (record_of p v)
          key
          (some (locked p payload config w seen locked_at))
      → Elsewhere p w v
      → Post
          (λ v' _. Settles v')
          (λ v' e. Retried p payload config w v' e)
          (with_lock p payload config (some (locked p payload config w seen locked_at)) v)
  unfolding with_lock
  with_lock-Settles seen locked_at v records elsewhere =
      let lock = locked p payload config w seen locked_at in
      Post-recover (handle_failure p payload config lock.attempt_count)
        (apply_event_ends p payload lock v (Written-at _ _ key _ records))
        (λ v' _ a.
          inl (
            Applied-Completed p payload config w is_proceed seen locked_at v records elsewhere v'
              a))
        (λ v' e u.
          handle_failure-Settles seen locked_at e v'
            (still_held p payload config w is_proceed seen locked_at v records elsewhere v' u))

  -- If MongoDB answers every operation on the records, whatever it does to the shipments, both stores
  -- of dead letters take them, and the event has no record or one that is `received` or `failed`,
  -- then `processEvent` leaves no lock behind: it returns, and the event was applied or dead-lettered
  -- in full, or it asks for a retry and the attempt is in the record, which is `failed`.
  pub process_event_settles :
      Post
        (λ w' _. Completed p payload config w w' ⊎ Buried p payload config w w')
        (λ w' e. Retried p payload config w w' e)
        (process_event p payload config w)
  process_event_settles = entering p reliable payload config w is_proceed with_lock-Settles
