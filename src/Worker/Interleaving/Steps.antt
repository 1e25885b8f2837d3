-- ===== src/Worker/Interleaving/Steps.antt =====
-- Steps of a worker, one after the other, and the failures of `processEvent` as such steps
-- (gateway-worker/src/processors/process-event.ts).
use fincart_assissment.Common.{
  ℕ, ◌≡◌, ◌⊎◌, inl, inr, Bool, true, false, Option, none, some, [], ◌∷◌, ◌++◌, Bool-cases, arith,
}
use fincart_assissment.Common.Text.{Str}
use fincart_assissment.Contracts.{QueueJobPayload}
use fincart_assissment.Effects.{Reply, continue}
use fincart_assissment.Effects.Post.{Post, thrown, Post-continue, Post-weaken}
use fincart_assissment.Services.{updated, found, Written, Same}
use fincart_assissment.Worker.Retry.{RetryPolicyConfig, should_retry}
use fincart_assissment.Worker.Classifier.{Thrown, ClassifiedError, classify_error}
use fincart_assissment.Worker.World.{Platform, World, random, now}
use fincart_assissment.Worker.Records.{ProcessedEventRecord}
use fincart_assissment.Worker.Repositories.{find_by_idempotency_key, attempt_entry}
use fincart_assissment.Worker.Repositories.Views.{record_of}
use fincart_assissment.Worker.Repositories.Writes.{
  find_by_idempotency_key_reads, mark_failed_writes, mark_dead_lettered_writes,
}
use fincart_assissment.Worker.Repositories.Letters.{persist_dead_letter_writes, on_dlq_writes}
use fincart_assissment.Worker.ProcessEvent.{
  ask_retry, send_letter, send_job, schedule_retry, dead_letter, handle_failure, history_of,
}
use fincart_assissment.Worker.ProcessEvent.Views.{Written-at}
use fincart_assissment.Worker.ProcessEvent.Outcome.{letter_of, job_of}
use fincart_assissment.Worker.Interleaving.{Phase, begun, done, failing, WorkerStep, retry, bury}

-- The operations of one worker, one after the other.
pub data WorkerRuns (max_attempts : ℕ) (o : Option ProcessedEventRecord)
    : Phase → Option ProcessedEventRecord → Type 0 where
  unmoved : WorkerRuns max_attempts o begun o
  step :
      {phase phase' : Phase} {a b : Option ProcessedEventRecord}
      → WorkerRuns max_attempts o phase a
      → WorkerStep max_attempts phase a phase' b
      → WorkerRuns max_attempts o phase' b

pub found-updated :
    {D : Type 0} (filter : D → Bool) (change : D → D) (o : Option D) (d : D)
    → found filter change o ≡ some d
    → updated filter change o ≡ some d
found-updated filter change none d h = absurd (cc)
found-updated filter change (some x) d h = ground arith

module _ (p : Platform) (payload : QueueJobPayload) (config : RetryPolicyConfig) (w : World p) where
  abbrev key : Str
  key = payload.idempotency_key

  abbrev m : ℕ
  m = config.max_attempts

  abbrev pub Reached : Phase → World p → Type 0
  Reached phase v = WorkerRuns m (record_of p w key) phase (record_of p v key)

  -- Steps of a worker lead to the record.
  abbrev pub Follows : World p → Type 0
  Follows v = (phase : Phase) × WorkerRuns m (record_of p w key) phase (record_of p v key)

  abbrev pub AllFollow : {A : Type 0} → World p × Reply Thrown A → Type 0
  AllFollow r = Post (λ v _. Follows v) (λ v _. Follows v) r

  pub moved :
      (phase : Phase) {phase' : Phase} {o : Option ProcessedEventRecord} (v v' : World p)
      → Reached phase v
      → WorkerStep m phase (record_of p v key) phase' o
      → record_of p v' key ≡ o
      → Reached phase' v'
  moved phase v v' run s e = rw e (step run s)

  pub stays :
      (phase : Phase) (v v' : World p)
      → Reached phase v
      → Same (record_of p v) (record_of p v')
      → Reached phase v'
  stays phase v v' run same = rw (same key) run

  -- A write that threw.
  pub perhaps :
      (phase : Phase) {phase' : Phase} {o : Option ProcessedEventRecord} (v v' : World p)
      → Reached phase v
      → WorkerStep m phase (record_of p v key) phase' o
      → Same (record_of p v) (record_of p v') ⊎ Written (record_of p v) (record_of p v') key o
      → Follows v'
  perhaps phase v v' run s (inl same) = (phase, stays phase v v' run same)
  perhaps phase {phase'} v v' run s (inr written) =
      (phase', moved phase v v' run s (Written-at _ _ key _ written))

  letter_follows :
      (attempt : ℕ) (classified : ClassifiedError) (existing : Option ProcessedEventRecord)
      (v : World p)
      → Reached done v
      → AllFollow (send_letter p payload attempt classified existing v)
  letter_follows attempt classified existing v run =
      let t = (p.host.now v.clock).1 in
      let history =
        history_of existing ++ attempt_entry classified.code classified.message attempt t ∷ [] in
      Post-continue (λ _ u. continue (send_job p payload attempt classified history) (now p u))
        (persist_dead_letter_writes p (letter_of payload attempt classified history)
          (record v { clock = (p.host.now v.clock).0 }))
        (λ v₁ _ (created, expires_from, only, added, kept).
          Post-weaken
            (on_dlq_writes p (job_of payload attempt classified history (p.host.now v₁.clock).1)
              (record v₁ { clock = (p.host.now v₁.clock).0 }))
            (λ v₂ _ (only₂, x, y).
              (done, stays done v₁ v₂ (stays done v v₁ run only.same_records) only₂.same_records))
            (λ v₂ _ (only₂, _).
              (done, stays done v₁ v₂ (stays done v v₁ run only.same_records) only₂.same_records)))
        (λ v₁ _ (only, kept). (done, stays done v v₁ run only.same_records))

  bury_follows :
      (attempt : ℕ) (classified : ClassifiedError) (v : World p)
      → should_retry attempt m classified.classification ≡ false
      → Reached (failing attempt) v
      → AllFollow (dead_letter p payload attempt classified v)
  unfolding dead_letter
  bury_follows attempt classified v given_up run =
      Post-continue
        (λ _ u.
          continue (send_letter p payload attempt classified) (find_by_idempotency_key p key u))
        (mark_dead_lettered_writes p key v)
        (λ v₁ _ (t, u, written, rest).
          let run₁ =
            moved (failing attempt) v v₁ run (bury _ attempt classified.classification t u given_up)
              (Written-at _ _ key _ written) in
          Post-continue (send_letter p payload attempt classified)
            (find_by_idempotency_key_reads p key v₁)
            (λ v₂ existing ((same, read), elsewhere).
              letter_follows attempt classified existing v₂ (stays done v₁ v₂ run₁ same))
            (λ v₂ e (same, elsewhere). (done, stays done v₁ v₂ run₁ same)))
        (λ v₁ e (t, u, written, rest).
          perhaps (failing attempt) v v₁ run (bury _ attempt classified.classification t u given_up)
            written)

  retry_follows :
      (attempt : ℕ) (classified : ClassifiedError) (v : World p)
      → should_retry attempt m classified.classification ≡ true
      → Reached (failing attempt) v
      → AllFollow (schedule_retry p payload config attempt classified v)
  unfolding schedule_retry
  retry_follows attempt classified v allowed run =
      Post-continue (λ _ u. continue (ask_retry p config attempt classified) (random p u))
        (mark_failed_writes p key classified.code classified.message attempt v)
        (λ v₁ _ (t, u, written, rest). thrown (
          done,
          moved (failing attempt) v v₁ run
              (retry _ attempt classified.classification classified.code classified.message t
                allowed)
              (Written-at _ _ key _ written),
        ))
        (λ v₁ e (t, u, written, rest).
          perhaps (failing attempt) v v₁ run
            (retry _ attempt classified.classification classified.code classified.message t allowed)
            written)

  pub failure_follows :
      (attempt : ℕ) (e : Thrown) (v : World p)
      → Reached (failing attempt) v
      → AllFollow (handle_failure p payload config attempt e v)
  unfolding handle_failure
  failure_follows attempt e v run =
      elim (Bool-cases (should_retry attempt m (classify_error e).classification)) [
        | inl allowed ↦ rw allowed (retry_follows attempt (classify_error e) v allowed run)
        | inr given_up ↦ rw given_up (bury_follows attempt (classify_error e) v given_up run)
      ]
