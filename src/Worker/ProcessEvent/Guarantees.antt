-- ===== src/Worker/ProcessEvent/Guarantees.antt =====
-- What `processEvent` guarantees of the records, and of an event that is delivered again.
use fincart_assissment.Common.{ℕ, ◌<◌, ◌≡◌, refl, ap, ◌∙◌, false, some, lt→ltb}
use fincart_assissment.Common.Text.{Str, text, to_lower_case}
use fincart_assissment.Contracts.{QueueJobPayload, unknown_error}
use fincart_assissment.Effects.{ok}
use fincart_assissment.Effects.Post.{Post, returned, Post-continue, Post-weaken, Post-ok}
use fincart_assissment.Worker.Retry.{RetryPolicyConfig, should_retry}
use fincart_assissment.Worker.Classifier.{
  Thrown, as_error_like, or_else, is_dependency_failure, is_permanent_message, classify_error,
}
use fincart_assissment.Worker.Classifier.Laws.{missing-permanent}
use fincart_assissment.Services.{Same}
use fincart_assissment.Worker.World.{Platform, World}
use fincart_assissment.Worker.Records.{
  ProcessedStatus, received, processing, processed, failed, dead_lettered, ProcessedEventRecord,
}
use fincart_assissment.Worker.Repositories.{is_open}
use fincart_assissment.Worker.Repositories.Views.{record_of, Elsewhere}
use fincart_assissment.Worker.Lifecycle.{Moves}
use fincart_assissment.Worker.Lifecycle.Invariant.{AllSound, Moves-AllSound}
use fincart_assissment.Worker.ProcessEvent.{
  SkipReason, already_processed, already_dead_lettered, in_progress, skip, decide_status, missing,
  schedule_retry, dead_letter, handle_failure, on_decision, process_event,
}
use fincart_assissment.Worker.ProcessEvent.Views.{Same-Moves, Written-at}
use fincart_assissment.Worker.ProcessEvent.Outcome.{
  Ended, skipped, completed, buried, Stopped, retried, interrupted,
}
use fincart_assissment.Worker.ProcessEvent.Ends.{check_idempotency_reads, process_event_ends}

closed_skips :
    (s : ProcessedStatus)
    → is_open s ≡ false
    → (reason : SkipReason) × (decide_status s ≡ skip reason)
closed_skips received h = absurd (cc)
closed_skips failed h = absurd (cc)
closed_skips processing h = (in_progress, refl)
closed_skips processed h = (already_processed, refl)
closed_skips dead_lettered h = (already_dead_lettered, refl)

module _ (p : Platform) (payload : QueueJobPayload) (config : RetryPolicyConfig) (w : World p) where
  -- Every record moves as its life allows.
  abbrev pub Moved : World p → Type 0
  Moved w' = (j : Str) → Moves config.max_attempts (record_of p w j) (record_of p w' j)

  Ended-Moves : (w' : World p) → Ended p payload config w w' → Moved w'
  Ended-Moves w' (skipped s) = Same-Moves config.max_attempts _ _ s.same_records
  Ended-Moves w' (completed c) = c.moves
  Ended-Moves w' (buried b) = b.moves

  Stopped-Moves : (w' : World p) (e : Thrown) → Stopped p payload config w w' e → Moved w'
  Stopped-Moves w' e (retried r) = r.moves
  Stopped-Moves w' e (interrupted raised ms) = ms

  -- Nothing can be seen to have changed.
  abbrev pub Unchanged : World p → Type 0
  Unchanged w' = Same (record_of p w) (record_of p w') × Elsewhere p w w'

pub process_event_moves :
    (p : Platform) (payload : QueueJobPayload) (config : RetryPolicyConfig) (w : World p)
    → Post
        (λ w' _. Moved p payload config w w')
        (λ w' _. Moved p payload config w w')
        (process_event p payload config w)
process_event_moves p payload config w =
    Post-weaken (process_event_ends p payload config w)
      (λ w' _ h. Ended-Moves p payload config w w' h)
      (λ w' e h. Stopped-Moves p payload config w w' e h)

-- If at least one attempt is allowed and every record is sound, that is, its attempts are numbered
-- from 1 in its history, accounted for and at most the maximum, then they are all sound afterwards,
-- however `processEvent` ends.
pub process_event-AllSound :
    (p : Platform) (payload : QueueJobPayload) (config : RetryPolicyConfig) (w : World p)
    → 0 < config.max_attempts
    → ((j : Str) → AllSound config.max_attempts (record_of p w j))
    → Post
        (λ w' _. (j : Str) → AllSound config.max_attempts (record_of p w' j))
        (λ w' _. (j : Str) → AllSound config.max_attempts (record_of p w' j))
        (process_event p payload config w)
process_event-AllSound p payload config w m h =
    Post-weaken (process_event_moves p payload config w)
      (λ w' _ ms j. Moves-AllSound m (ms j) (h j)) (λ w' _ ms j. Moves-AllSound m (ms j) (h j))

-- An event whose record is `processed`, `dead_lettered` or `processing` changes nothing: no record,
-- no shipment, no dead letter and no job, however `processEvent` ends. A replay of a dead letter is
-- such an event.
pub process_event_closed :
    (p : Platform) (payload : QueueJobPayload) (config : RetryPolicyConfig) (w : World p)
    (d : ProcessedEventRecord)
    → record_of p w payload.idempotency_key ≡ some d
    → is_open d.status ≡ false
    → Post
        (λ w' _. Unchanged p payload config w w')
        (λ w' _. Unchanged p payload config w w')
        (process_event p payload config w)
unfolding process_event on_decision
process_event_closed p payload config w d found closed =
    let (reason, skips) = closed_skips d.status closed in
    Post-continue (on_decision p payload config) (check_idempotency_reads p payload config w)
      (λ v decision (same, elsewhere, decided).
        rw (← decided) (rw found (rw skips (returned (same, elsewhere)))))
      (λ v e h. h)

-- Once `processEvent` has returned normally, the event is done with: delivering an event with its
-- key again, with any payload and policy, changes nothing.
pub process_event_once :
    (p : Platform) (payload : QueueJobPayload) (config : RetryPolicyConfig) (w w' : World p)
    → process_event p payload config w ≡ (w', ok tt)
    → (again : QueueJobPayload) (config' : RetryPolicyConfig)
    → again.idempotency_key ≡ payload.idempotency_key
    → Post
        (λ w'' _. Unchanged p again config' w' w'')
        (λ w'' _. Unchanged p again config' w' w'')
        (process_event p again config' w')
process_event_once p payload config w w' run again config' same_key =
    let (d, found, closed) = ended_closed (Post-ok (process_event_ends p payload config w) run) in
    process_event_closed p again config' w' d (ap (record_of p w') same_key ∙ found) closed
  where
    ended_closed :
        Ended p payload config w w'
        → (d : ProcessedEventRecord) × (record_of p w' payload.idempotency_key ≡ some d)
          × (is_open d.status ≡ false)
    ended_closed (skipped s) =
        (s.existing, s.same_records payload.idempotency_key ∙ s.found, s.closed)
    ended_closed (completed c) = (_, Written-at _ _ payload.idempotency_key _ c.records, refl)
    ended_closed (buried b) = (_, Written-at _ _ payload.idempotency_key _ b.records, refl)

-- A payload that lacks a field is dead-lettered at once, whatever the attempt and the maximum.
pub handle_failure-missing :
    (p : Platform) (payload : QueueJobPayload) (config : RetryPolicyConfig) (attempt : ℕ)
    (key : Str)
    → handle_failure p payload config attempt (missing key)
      ≡ dead_letter p payload attempt (classify_error (missing key))
unfolding handle_failure should_retry
handle_failure-missing p payload config attempt key = rw (missing-permanent key)

-- An error that is no failure of a dependency, and whose message has none of the three words, is
-- unknown, and it is retried while attempts are left.
pub handle_failure-unknown :
    (p : Platform) (payload : QueueJobPayload) (config : RetryPolicyConfig) (attempt : ℕ)
    (e : Thrown)
    → is_dependency_failure (as_error_like e) ≡ false
    → is_permanent_message
        (to_lower_case (or_else (as_error_like e).message (text "Unknown error")))
      ≡ false
    → attempt < config.max_attempts
    → ((classify_error e).code ≡ unknown_error)
      × (handle_failure p payload config attempt e
          ≡ schedule_retry p payload config attempt (classify_error e))
unfolding handle_failure classify_error should_retry
handle_failure-unknown p payload config attempt e h k l =
    (rw (h, k), rw (h, k, lt→ltb attempt config.max_attempts l))
