-- ===== src/Replay/Delivery.antt =====
-- What the worker does with the jobs that scripts/dlq/replay-dlq.ts puts into its queue: the script,
-- the queue and the job processor of gateway-worker/src/queue/worker.ts, one after the other.
use fincart_assissment.Common.{
  ℕ, suc, ◌+◌, ◌≡◌, ◌∙◌, refl, inl, inr, false, some, List, [], ◌∷◌, Bool-cases, ltb, All, ap,
}
use fincart_assissment.Contracts.{QueueJobPayload}
use fincart_assissment.Effects.{return, try_catch, ◌>>◌}
use fincart_assissment.Effects.Post.{
  Post, returned, thrown, Post-continue, Post-recover, Post-weaken,
}
use fincart_assissment.Worker.Retry.{RetryPolicyConfig}
use fincart_assissment.Worker.Classifier.{Thrown, object, retryable, plain, other}
use fincart_assissment.Worker.World.{Platform, World, Act}
use fincart_assissment.Worker.Records.{ProcessedEventRecord}
use fincart_assissment.Worker.Repositories.{is_open}
use fincart_assissment.Worker.Repositories.Views.{record_of, Elsewhere, Elsewhere-trans}
use fincart_assissment.Services.{Same}
use fincart_assissment.Worker.ProcessEvent.{rethrow, event_job_processor}
use fincart_assissment.Worker.ProcessEvent.Job.{current_attempt}
use fincart_assissment.Worker.ProcessEvent.Guarantees.{process_event_closed}
use fincart_assissment.Replay.{Stored, ReplayJob, Times, replay_job}
use fincart_assissment.Replay.Order.{jobs_from}

module _ (p : Platform) (config : RetryPolicyConfig) where
  -- No record, no shipment, no dead letter and no job of the dead-letter queue has changed.
  abbrev pub Untouched : World p → World p → Type 0
  Untouched w w' = Same (record_of p w) (record_of p w') × Elsewhere p w w'

  Untouched-trans : (u v w : World p) → Untouched u v → Untouched v w → Untouched u w
  Untouched-trans u v w (a, b) (c, d) = (λ j. c j ∙ a j, Elsewhere-trans p u v w b d)

  unmoved : (w : World p) → Elsewhere p w w
  unmoved w = record { same_shipments = λ j. refl; same_dead_letters = refl; same_dlq = refl }

  rethrow-Untouched :
      (w v : World p) (attempt : ℕ) (e : Thrown)
      → Untouched w v
      → Post (λ w' _. Untouched w w') (λ w' _. Untouched w w') (rethrow p config attempt e v)
  rethrow-Untouched w v attempt (retryable message delay_ms) h =
      elim (Bool-cases (ltb config.max_attempts attempt)) [
        | inl past ↦ rw past (thrown h)
        | inr within ↦ rw within (
            thrown (
              h.0,
              record {
                same_shipments = h.1.same_shipments;
                same_dead_letters = h.1.same_dead_letters;
                same_dlq = h.1.same_dlq;
              },
            ))
      ]
  rethrow-Untouched w v attempt (object code name message) h = thrown h
  rethrow-Untouched w v attempt (plain m) h = thrown h
  rethrow-Untouched w v attempt other h = thrown h

  -- An event whose record is closed or in work: its job changes nothing, however it ends.
  event_job_processor_closed :
      (job_data : QueueJobPayload) (attempts_made : ℕ) (w : World p) (d : ProcessedEventRecord)
      → record_of p w job_data.idempotency_key ≡ some d
      → is_open d.status ≡ false
      → Post
          (λ w' _. Untouched w w')
          (λ w' _. Untouched w w')
          (event_job_processor p config job_data attempts_made w)
  unfolding event_job_processor
  event_job_processor_closed job_data attempts_made w d found closed =
      rw (current_attempt p config job_data attempts_made w) (
        Post-recover (rethrow p config (attempts_made + 1))
          (process_event_closed p (record job_data { attempt = attempts_made + 1 }) config w d found
            closed)
          (λ _ _ h. h) (λ v e h. rethrow-Untouched w v (attempts_made + 1) e h))

  -- The worker runs the jobs of the queue, the first attempt of each; a job that fails does not keep
  -- it from the next. `received` is the payload that BullMQ hands over for a job.
  abbrev pub run_jobs : (ReplayJob → QueueJobPayload) → List ReplayJob → Act p (Unit {0})
  run_jobs received [] = return tt
  run_jobs received (job ∷ jobs) =
      try_catch (event_job_processor p config (received job) 0) (λ _. return tt)
      >> run_jobs received jobs

  -- The event of a dead letter has a record that is not `received` or `failed`, as the worker leaves it.
  abbrev pub IsClosed : World p → Stored → Type 0
  IsClosed w letter =
      (d : ProcessedEventRecord) × (record_of p w letter.letter.idempotency_key ≡ some d)
      × (is_open d.status ≡ false)

  All-IsClosed :
      (w w' : World p) (letters : List Stored)
      → Untouched w w'
      → All (IsClosed w) letters
      → All (IsClosed w') letters
  All-IsClosed w w' [] h k = tt
  All-IsClosed w w' (l ∷ ls) h ((d, found, closed), k) =
      ((d, h.0 l.letter.idempotency_key ∙ found, closed), All-IsClosed w w' ls h k)

  -- The jobs of replayed letters change nothing, when the events of the letters have records that are
  -- closed, as the worker leaves them, and the queue hands over the idempotency keys unchanged: no
  -- record, no shipment, no dead letter and no job of the dead-letter queue.
  pub replayed_jobs-change_nothing :
      (received : ReplayJob → QueueJobPayload)
      → ((job : ReplayJob) → (received job).idempotency_key ≡ job.idempotency_key)
      → (times : ℕ → Times) (i : ℕ) (letters : List Stored) (w : World p) → All (IsClosed w) letters
      → Post (λ w' _. Untouched w w') (λ _ _. ⊥) (run_jobs received (jobs_from times i letters) w)
  unfolding replay_job
  replayed_jobs-change_nothing received keeps times i [] w closed = returned (λ j. refl, unmoved w)
  replayed_jobs-change_nothing received keeps times i (l ∷ ls) w ((d, found, closed), rest) =
      Post-continue (λ _. run_jobs received (jobs_from times (suc i) ls))
        (Post-recover (λ _. return tt)
          (event_job_processor_closed (received (replay_job l.letter (times i))) 0 w d
            (ap (λ key. record_of p w key) (keeps (replay_job l.letter (times i))) ∙ found) closed)
          (λ _ _ h. h) (λ _ _ h. returned h))
        (λ u _ h.
          Post-weaken
            (replayed_jobs-change_nothing received keeps times (suc i) ls u
              (All-IsClosed w u ls h rest))
            (λ w' _ k. Untouched-trans w u w' h k) (λ _ _ k. k))
        (λ _ _ h. absurd h)
