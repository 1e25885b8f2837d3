-- ===== src/Worker/ProcessEvent/Deliveries.antt =====
-- The job of an event that is run again as long as it fails (gateway-worker/src/queue/worker.ts),
-- as README.md describes the retries: no event is retried for ever.
use fincart_assissment.Common.{
  ℕ, zero, suc, ◌+◌, ◌≤◌, ◌<◌, ◌≡◌, refl, ◌⊎◌, inl, inr, Option, none, some, ltb, Bool-cases, arith,
}
use fincart_assissment.Common.Text.{Str}
use fincart_assissment.Contracts.{QueueJobPayload}
use fincart_assissment.Effects.{try_catch}
use fincart_assissment.Effects.Post.{Post, thrown, Post-recover, Post-weaken}
use fincart_assissment.Worker.Retry.{RetryPolicyConfig}
use fincart_assissment.Worker.Retry.Bounds.{should_retry-lt}
use fincart_assissment.Worker.Classifier.{Thrown, object, retryable, plain, other}
use fincart_assissment.Worker.World.{Platform, World, Act}
use fincart_assissment.Worker.Records.{ProcessedEventRecord, processed, dead_lettered}
use fincart_assissment.Worker.Repositories.Views.{record_of}
use fincart_assissment.Worker.ProcessEvent.{proceed, decide, rethrow, event_job_processor}
use fincart_assissment.Worker.ProcessEvent.Views.{Written-at}
use fincart_assissment.Worker.ProcessEvent.Outcome.{
  received_of, entered, Completed, Buried, Retried,
}
use fincart_assissment.Worker.ProcessEvent.Reliable.{AnswersRecords, TakesLetters}
use fincart_assissment.Worker.ProcessEvent.Settling.{process_event_settles}
use fincart_assissment.Worker.ProcessEvent.Job.{numbered, current_attempt}

-- The attempts that a record counts.
abbrev pub count_of : Option ProcessedEventRecord → ℕ
count_of none = 0
count_of (some d) = d.attempt_count

-- The record is closed for good.
abbrev pub Final : Option ProcessedEventRecord → Type 0
Final o =
    (d : ProcessedEventRecord) × (o ≡ some d)
    × ((d.status ≡ processed) ⊎ (d.status ≡ dead_lettered))

-- The record went from `o` to `o'` by one more attempt, and may be tried again.
abbrev OneMore : ℕ → Option ProcessedEventRecord → Option ProcessedEventRecord → Type 0
OneMore max_attempts o o' =
    (decide o' ≡ proceed) × (count_of o' ≡ count_of o + 1) × (count_of o' < max_attempts)

module _ (p : Platform) (config : RetryPolicyConfig) (job_data : QueueJobPayload) where
  abbrev key : Str
  key = job_data.idempotency_key

  -- The job is run, and again after each failure while retries are left; the queue counts the runs.
  pub deliver : (retries attempts_made : ℕ) → Act p (Unit {0})
  deliver zero attempts_made = event_job_processor p config job_data attempts_made
  deliver (suc retries) attempts_made =
      try_catch (event_job_processor p config job_data attempts_made)
        (λ _. deliver retries (attempts_made + 1))

  entered-count :
      (payload : QueueJobPayload) (seen : ℕ) (o : Option ProcessedEventRecord)
      → (entered (received_of payload) seen o).attempt_count ≡ count_of o
  entered-count payload seen none = refl
  entered-count payload seen (some d) = refl

  module _ (payload : QueueJobPayload) (w : World p) where
    closed_for_good :
        (v : World p)
        → Completed p payload config w v ⊎ Buried p payload config w v
        → Final (record_of p v payload.idempotency_key)
    closed_for_good v (inl c) = (_, Written-at _ _ payload.idempotency_key _ c.records, inl refl)
    closed_for_good v (inr b) = (_, Written-at _ _ payload.idempotency_key _ b.records, inr refl)

    one_more :
        (v : World p) (e : Thrown)
        → Retried p payload config w v e
        → OneMore config.max_attempts
            (record_of p w payload.idempotency_key)
            (record_of p v payload.idempotency_key)
    one_more v e r =
        let before = record_of p w payload.idempotency_key in
        let below = should_retry-lt _ _ _ r.allowed in
        let count = entered-count payload r.seen before in
        let same = r.same_count in
        rw (Written-at _ _ payload.idempotency_key _ r.records) (refl, omega arith, omega arith)

  rethrow-keeps :
      (P : World p → Type 0) (current : ℕ) (e : Thrown) (v : World p)
      → ((c : p.host.State) → P (record v { clock = c }))
      → Post (λ _ _. ⊥) (λ w' _. P w') (rethrow p config current e v)
  rethrow-keeps P current (retryable message delay_ms) v h =
      elim (Bool-cases (ltb config.max_attempts current)) [
        | inl past ↦ rw past (thrown (h v.clock))
        | inr within ↦ rw within (thrown (h _))
      ]
  rethrow-keeps P current (object code name message) v h = thrown (h v.clock)
  rethrow-keeps P current (plain m) v h = thrown (h v.clock)
  rethrow-keeps P current other v h = thrown (h v.clock)

  module _ (reliable : AnswersRecords p) (takes : TakesLetters p) where
    run_settles :
        (attempts_made : ℕ) (w : World p)
        → decide (record_of p w key) ≡ proceed
        → Post
            (λ w' _. Final (record_of p w' key))
            (λ w' _. OneMore config.max_attempts (record_of p w key) (record_of p w' key))
            (event_job_processor p config job_data attempts_made w)
    unfolding event_job_processor
    run_settles attempts_made w is_proceed =
        let payload = numbered p config job_data attempts_made w in
        rw (current_attempt p config job_data attempts_made w) (
          Post-recover (rethrow p config (attempts_made + 1))
            (process_event_settles p reliable takes payload config w is_proceed)
            (λ w' _ h. closed_for_good payload w w' h)
            (λ v e r.
              Post-weaken
                (rethrow-keeps
                  (λ u. OneMore config.max_attempts (record_of p w key) (record_of p u key))
                  (attempts_made + 1) e v (λ c. one_more payload w v e r))
                (λ _ _ x. absurd x) (λ _ _ x. x)))

    -- If MongoDB answers every operation on the records and both stores of dead letters take them,
    -- then the job of an event that has no record or one that may be tried again, run again as long as
    -- it fails, returns within as many runs as there are attempts left, whatever the payload is and
    -- whatever MongoDB does to the shipments; and the record is then `processed` or `dead_lettered`.
    pub deliver_ends :
        (retries attempts_made : ℕ) (w : World p)
        → decide (record_of p w key) ≡ proceed
        → config.max_attempts ≤ count_of (record_of p w key) + suc retries
        → Post (λ w' _. Final (record_of p w' key)) (λ _ _. ⊥) (deliver retries attempts_made w)
    unfolding deliver
    deliver_ends zero attempts_made w is_proceed enough =
        Post-weaken (run_settles attempts_made w is_proceed) (λ _ _ h. h)
          (λ _ _ (again, count, below). omega arith)
    deliver_ends (suc retries) attempts_made w is_proceed enough =
        Post-recover (λ _. deliver retries (attempts_made + 1))
          (run_settles attempts_made w is_proceed) (λ _ _ h. h)
          (λ v _ (again, count, below).
            deliver_ends retries (attempts_made + 1) v again (omega arith))
