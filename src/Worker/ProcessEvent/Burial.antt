-- ===== src/Worker/ProcessEvent/Burial.antt =====
-- The dead letter in the `catch` clause of `processEvent`.
use fincart_assissment.Common.{ℕ, ◌≡◌, ◌∙◌, false, Option, some, [], ◌∷◌, ◌++◌}
use fincart_assissment.Common.Text.{Str}
use fincart_assissment.Contracts.{QueueJobPayload}
use fincart_assissment.Effects.{continue}
use fincart_assissment.Effects.Post.{Post, Post-continue, Post-weaken, Post-raised}
use fincart_assissment.Worker.Retry.{RetryPolicyConfig, should_retry}
use fincart_assissment.Worker.Classifier.{Thrown, ClassifiedError, classify_error}
use fincart_assissment.Services.{Written}
use fincart_assissment.Worker.World.{Platform, World, now}
use fincart_assissment.Worker.Records.{ProcessedEventRecord, dead_lettered}
use fincart_assissment.Worker.Repositories.{closed_as, find_by_idempotency_key, new_dead_letter}
use fincart_assissment.Worker.Repositories.Views.{record_of, dead_letters_of, dlq_of}
use fincart_assissment.Worker.Repositories.Writes.{
  mark_dead_lettered_writes, find_by_idempotency_key_reads,
}
use fincart_assissment.Worker.Repositories.Letters.{persist_dead_letter_writes, on_dlq_writes}
use fincart_assissment.Worker.Lifecycle.{bury, Moves, next}
use fincart_assissment.Worker.ProcessEvent.{send_job, send_letter, dead_letter}
use fincart_assissment.Worker.ProcessEvent.Views.{
  Written-Same, Written-Written, Written-at, Written-Moves, Moves-after,
}
use fincart_assissment.Worker.ProcessEvent.Outcome.{
  locked, full_history, letter_of, job_of, Buried, Stopped, interrupted,
}
use fincart_assissment.Worker.ProcessEvent.Raised.{
  find_by_idempotency_key-PassesOn, mark_dead_lettered-PassesOn, persist_dead_letter-PassesOn,
  on_dlq-PassesOn,
}
use fincart_assissment.Worker.ProcessEvent.Holding.{Holding, held_at}

module _ (p : Platform) (payload : QueueJobPayload) (config : RetryPolicyConfig) (w : World p)
    (seen locked_at : ℕ) where
  abbrev key : Str
  key = payload.idempotency_key

  abbrev lock : ProcessedEventRecord
  lock = locked p payload config w seen locked_at

  module _ (cause : Thrown) (v : World p) (h : Holding p payload config w seen locked_at v) where
    abbrev classified : ClassifiedError
    classified = classify_error cause

    -- After the record was marked, nothing about the records changes.
    buried-Moves :
        (v' : World p) (t u : ℕ)
        → Written (record_of p w) (record_of p v') key (some (closed_as dead_lettered t u h.held))
        → (j : Str) → Moves config.max_attempts (record_of p w j) (record_of p v' j)
    buried-Moves v' t u written =
        Written-Moves config.max_attempts _ _ key _ written
          (next h.moves (bury h.held t u h.is_held))

    buries_held :
        should_retry lock.attempt_count config.max_attempts classified.classification ≡ false
        → (t u noted created expires_from queued : ℕ) (v' : World p)
        → Written (record_of p w) (record_of p v') key (some (closed_as dead_lettered t u h.held))
        → dead_letters_of p v'
          ≡ dead_letters_of p w
            ++ new_dead_letter
                (letter_of payload lock.attempt_count classified
                  (full_history lock classified noted))
                created
                expires_from
              ∷ []
        → dlq_of p v'
          ≡ dlq_of p w
            ++ job_of payload lock.attempt_count classified
                (full_history lock classified noted)
                queued
              ∷ []
        → Buried p payload config w v'
    buries_held given_up t u noted created expires_from queued v' written letters jobs = record {
      seen = seen;
      locked_at = locked_at;
      now = t;
      later = u;
      cause = cause;
      noted = noted;
      created = created;
      expires_from = expires_from;
      queued = queued;
      given_up = given_up;
      records = rw (h.same_burial t u) at written;
      moves = buried-Moves v' t u written;
      dead_letters = letters;
      jobs = jobs;
    }

    -- The two writes of the letter, on a record that is `dead_lettered`.
    send_letter_ends :
        should_retry lock.attempt_count config.max_attempts classified.classification ≡ false
        → (t u : ℕ) (v₁ : World p) (existing : Option ProcessedEventRecord)
        → Written (record_of p w) (record_of p v₁) key (some (closed_as dead_lettered t u h.held))
        → dead_letters_of p v₁ ≡ dead_letters_of p w
        → dlq_of p v₁ ≡ dlq_of p w
        → existing ≡ some (closed_as dead_lettered t u h.held)
        → Post
            (λ v' _. Buried p payload config w v')
            (λ v' e. Stopped p payload config w v' e)
            (send_letter p payload lock.attempt_count classified existing v₁)
    send_letter_ends given_up t u v₁ existing written letters jobs e =
        let n = (p.host.now v₁.clock).1 in
        let history = full_history lock classified n in
        rw (e, h.same_history)
          (Post-continue
            (λ _ x. continue (send_job p payload lock.attempt_count classified history) (now p x))
            (Post-raised
              (persist_dead_letter_writes p
                (letter_of payload lock.attempt_count classified history)
                (record v₁ { clock = (p.host.now v₁.clock).0 }))
              (persist_dead_letter-PassesOn p
                (letter_of payload lock.attempt_count classified history)
                (record v₁ { clock = (p.host.now v₁.clock).0 })))
            (λ v₂ _ (created, expires_from, only, added, kept).
              let queued = (p.host.now v₂.clock).1 in
              Post-weaken
                (Post-raised
                  (on_dlq_writes p (job_of payload lock.attempt_count classified history queued)
                    (record v₂ { clock = (p.host.now v₂.clock).0 }))
                  (on_dlq-PassesOn p (job_of payload lock.attempt_count classified history queued)
                    (record v₂ { clock = (p.host.now v₂.clock).0 })))
                (λ v₃ _ (only₃, kept₃, added₃).
                  buries_held given_up t u n created expires_from queued v₃
                    (Written-Same _ _ _ key _ (Written-Same _ _ _ key _ written only.same_records)
                      only₃.same_records)
                    (kept₃ ∙ (rw letters at added)) (rw (kept ∙ jobs) at added₃))
                (λ v₃ _ ((only₃, kept₃), raised). interrupted raised (
                  buried-Moves v₃ t u (
                    Written-Same _ _ _ key _ (Written-Same _ _ _ key _ written only.same_records)
                      only₃.same_records))))
            (λ v₂ _ ((only, kept), raised).
              interrupted raised
                (buried-Moves v₂ t u (Written-Same _ _ _ key _ written only.same_records))))

    pub dead_letter_ends :
        should_retry lock.attempt_count config.max_attempts classified.classification ≡ false
        → Post
            (λ v' _. Buried p payload config w v')
            (λ v' e. Stopped p payload config w v' e)
            (dead_letter p payload lock.attempt_count classified v)
    unfolding dead_letter
    dead_letter_ends given_up =
        Post-continue
          (λ _ u.
            continue (send_letter p payload lock.attempt_count classified)
              (find_by_idempotency_key p key u))
          (Post-raised (mark_dead_lettered_writes p key v) (mark_dead_lettered-PassesOn p key v))
          (λ v₁ _ (t, u, written, rest).
            let all =
              Written-Written _ _ _ key _ _ h.records
                (rw (held_at p payload config w seen locked_at v h) at written) in
            Post-continue (send_letter p payload lock.attempt_count classified)
              (Post-raised (find_by_idempotency_key_reads p key v₁)
                (find_by_idempotency_key-PassesOn p key v₁))
              (λ v₂ existing ((same, read), elsewhere).
                send_letter_ends given_up t u v₂ existing (Written-Same _ _ _ key _ all same)
                  (elsewhere.same_dead_letters ∙ (rest.same_dead_letters ∙ h.same_dead_letters))
                  (elsewhere.same_dlq ∙ (rest.same_dlq ∙ h.same_dlq))
                  (read ∙ Written-at _ _ key _ all))
              (λ v₂ e ((same, elsewhere), raised).
                interrupted raised (buried-Moves v₂ t u (Written-Same _ _ _ key _ all same))))
          (λ v₁ e ((t, u, written, rest), raised). interrupted raised (
            Moves-after config.max_attempts _ _ _ key (some h.held)
              (some (closed_as dead_lettered t u h.held)) h.records h.moves
              (rw (held_at p payload config w seen locked_at v h) at written)
              (bury h.held t u h.is_held)))
