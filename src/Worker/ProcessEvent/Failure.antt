-- ===== src/Worker/ProcessEvent/Failure.antt =====
-- The `catch` clause of `processEvent`: the retry, or the dead letter.
use fincart_assissment.Common.{ℕ, ◌<◌, ◌≡◌, ◌∙◌, inl, inr, true, none, some, Bool-cases, arith}
use fincart_assissment.Common.Text.{Str}
use fincart_assissment.Contracts.{QueueJobPayload}
use fincart_assissment.Effects.{continue}
use fincart_assissment.Effects.Post.{
  Post, thrown, Post-continue, Post-weaken, Post-sure, Post-raised, Succeeds,
}
use fincart_assissment.Worker.Retry.{RetryPolicyConfig, should_retry, delay_of}
use fincart_assissment.Worker.Retry.Bounds.{should_retry-lt, calculate_backoff_delay_lem}
use fincart_assissment.Worker.Classifier.{Thrown, ClassifiedError, classify_error}
use fincart_assissment.Services.{Written, updated}
use fincart_assissment.Worker.World.{Platform, World, random}
use fincart_assissment.Worker.Records.{ProcessedEventRecord}
use fincart_assissment.Worker.Repositories.{failed_with, mark_failed}
use fincart_assissment.Worker.Repositories.Views.{record_of, Elsewhere}
use fincart_assissment.Worker.Repositories.Writes.{mark_failed_writes}
use fincart_assissment.Worker.Lifecycle.{Move, fail}
use fincart_assissment.Worker.ProcessEvent.{ask_retry, schedule_retry, handle_failure}
use fincart_assissment.Worker.ProcessEvent.Views.{Written-Written, Moves-after}
use fincart_assissment.Worker.ProcessEvent.Outcome.{
  locked, Buried, Retried, Stopped, retried, interrupted,
}
use fincart_assissment.Worker.ProcessEvent.Raised.{mark_failed-PassesOn}
use fincart_assissment.Worker.ProcessEvent.Holding.{Holding, held_at}
use fincart_assissment.Worker.ProcessEvent.Burial.{dead_letter_ends}

module _ (p : Platform) (payload : QueueJobPayload) (config : RetryPolicyConfig) (w : World p)
    (seen locked_at : ℕ) where
  abbrev key : Str
  key = payload.idempotency_key

  abbrev lock : ProcessedEventRecord
  lock = locked p payload config w seen locked_at

  module _ (cause : Thrown) (v : World p) (h : Holding p payload config w seen locked_at v) where
    abbrev classified : ClassifiedError
    classified = classify_error cause

    abbrev failed_record : ℕ → ProcessedEventRecord
    failed_record t = failed_with classified.code classified.message lock.attempt_count t h.held

    fail-Move :
        (t : ℕ)
        → lock.attempt_count < config.max_attempts
        → Move config.max_attempts (some h.held) (some (failed_record t))
    fail-Move t l =
        rw (← h.same_count)
          (fail h.held classified.code classified.message t h.is_held (rw h.same_count l))

    -- The failed attempt was written down, and the retry is asked for.
    retries_held :
        should_retry lock.attempt_count config.max_attempts classified.classification ≡ true
        → (t : ℕ) (v' : World p)
        → Written (record_of p v) (record_of p v') key (
            updated
              (λ _. true)
              (failed_with classified.code classified.message lock.attempt_count t)
              (record_of p v key))
        → Elsewhere p v v'
        → Post
            (λ _ _. ⊥)
            (λ v'' e. Retried p payload config w v'' e)
            (continue (ask_retry p config lock.attempt_count classified) (random p v'))
    retries_held allowed t v' written rest =
        let below = should_retry-lt _ _ _ allowed in
        let drawn = (p.host.random v'.clock).1 in
        let computed =
          calculate_backoff_delay_lem lock.attempt_count config none drawn (omega arith) in
        thrown (record {
          seen = seen;
          locked_at = locked_at;
          now = t;
          cause = cause;
          held = h.held;
          drawn = drawn;
          delay = delay_of lock.attempt_count config none drawn;
          allowed = allowed;
          thrown = rw computed;
          computed = computed;
          same_count = h.same_count;
          same_history = h.same_history;
          records =
              Written-Written _ _ _ key _ _ h.records
                (rw (held_at p payload config w seen locked_at v h) at written);
          moves =
              Moves-after config.max_attempts _ _ _ key (some h.held) (some (failed_record t))
                h.records h.moves
                (inr (rw (held_at p payload config w seen locked_at v h) at written))
                (fail-Move t below);
          same_dead_letters = rest.same_dead_letters ∙ h.same_dead_letters;
          same_dlq = rest.same_dlq ∙ h.same_dlq;
        })

    -- A retry ends by its own exception, or by that of the service that threw.
    pub schedule_retry_ends :
        should_retry lock.attempt_count config.max_attempts classified.classification ≡ true
        → Post
            (λ _ _. ⊥)
            (λ v' e. Stopped p payload config w v' e)
            (schedule_retry p payload config lock.attempt_count classified v)
    unfolding schedule_retry
    schedule_retry_ends allowed =
        let below = should_retry-lt _ _ _ allowed in
        Post-continue
          (λ _ u. continue (ask_retry p config lock.attempt_count classified) (random p u))
          (Post-raised
            (mark_failed_writes p key classified.code classified.message lock.attempt_count v)
            (mark_failed-PassesOn p key classified.code classified.message lock.attempt_count v))
          (λ v' _ (t, u, written, rest).
            Post-weaken (retries_held allowed t v' written rest) (λ _ _ x. x) (λ _ _ r. retried r))
          (λ v' e ((t, u, written, rest), raised). interrupted raised (
            Moves-after config.max_attempts _ _ _ key (some h.held) (some (failed_record t))
              h.records h.moves (rw (held_at p payload config w seen locked_at v h) at written)
              (fail-Move t below)))

    -- By its own, when MongoDB takes the failed attempt.
    pub schedule_retry_retries :
        Succeeds (mark_failed p key classified.code classified.message lock.attempt_count v)
        → should_retry lock.attempt_count config.max_attempts classified.classification ≡ true
        → Post
            (λ _ _. ⊥)
            (λ v' e. Retried p payload config w v' e)
            (schedule_retry p payload config lock.attempt_count classified v)
    unfolding schedule_retry
    schedule_retry_retries taken allowed =
        Post-continue
          (λ _ u. continue (ask_retry p config lock.attempt_count classified) (random p u))
          (Post-sure
            (mark_failed_writes p key classified.code classified.message lock.attempt_count v)
            taken)
          (λ v' _ (t, u, written, rest). retries_held allowed t v' written rest) (λ _ _ x. absurd x)

    -- The `catch` clause, on a record that is still held.
    pub handle_failure_ends :
        Post
          (λ v' _. Buried p payload config w v')
          (λ v' e. Stopped p payload config w v' e)
          (handle_failure p payload config lock.attempt_count cause v)
    unfolding handle_failure
    handle_failure_ends =
        elim (Bool-cases
          (should_retry lock.attempt_count config.max_attempts classified.classification)) [
            | inl allowed ↦ rw allowed (
                Post-weaken (schedule_retry_ends allowed) (λ v' _ impossible. absurd impossible)
                  (λ v' e s. s))
            | inr given_up ↦
                rw given_up (dead_letter_ends p payload config w seen locked_at cause v h given_up)
          ]
