-- ===== src/Worker/ProcessEvent/Ends.antt =====
-- `processEvent` as a whole: how it ends, whatever the services do.
use fincart_assissment.Common.{ℕ, ◌≡◌, sym, ap, ◌∙◌, ◌⊎◌, inl, inr, some}
use fincart_assissment.Common.Text.{Str}
use fincart_assissment.Contracts.{QueueJobPayload}
use fincart_assissment.Effects.{Reply, ok, continue}
use fincart_assissment.Effects.Post.{
  Post, returned, Post-continue, Post-recover, Post-weaken, Post-raised,
}
use fincart_assissment.Worker.Retry.{RetryPolicyConfig}
use fincart_assissment.Worker.Classifier.{Thrown}
use fincart_assissment.Services.{Written, Same, found, upserted}
use fincart_assissment.Worker.World.{Platform, World}
use fincart_assissment.Worker.Records.{ProcessedEventRecord}
use fincart_assissment.Worker.Repositories.{new_record, started, mark_processing}
use fincart_assissment.Worker.Repositories.Views.{Elsewhere-trans, record_of, Elsewhere}
use fincart_assissment.Worker.Repositories.Writes.{
  find_by_idempotency_key_reads, mark_received_writes, mark_processing_writes,
}
use fincart_assissment.Worker.Lifecycle.{start, Moves}
use fincart_assissment.Worker.ProcessEvent.{
  IdempotencyDecision, proceed, skip, SkipReason, decide, check_idempotency, handle_failure,
  with_lock, on_decision, process_event,
}
use fincart_assissment.Worker.ProcessEvent.Views.{
  Same-Written, Written-Written, Written-at, Written-Moves, Same-Moves, Moves-after,
  Same-or-Written,
}
use fincart_assissment.Worker.ProcessEvent.Outcome.{
  received_of, entered, locked, Ended, skipped, completed, buried, Stopped, interrupted,
}
use fincart_assissment.Worker.ProcessEvent.Raised.{
  check_idempotency-PassesOn, mark_received-PassesOn, mark_processing-PassesOn,
}
use fincart_assissment.Worker.ProcessEvent.Stages.{apply_event_ends}
use fincart_assissment.Worker.ProcessEvent.Failure.{handle_failure_ends}
use fincart_assissment.Worker.ProcessEvent.Entered.{
  entered_open, upserted-entered, entered-Moves, skip_existing, updated_open, found_open,
}
use fincart_assissment.Worker.ProcessEvent.Locked.{Applied-Completed, still_held}

module _ (p : Platform) (payload : QueueJobPayload) (config : RetryPolicyConfig) (w : World p) where
  abbrev key : Str
  key = payload.idempotency_key

  abbrev entry : ℕ → ProcessedEventRecord
  entry seen = entered (received_of payload) seen (record_of p w key)

  -- The ends of an action, in terms of the state before the whole.
  abbrev Ends : World p × Reply Thrown (Unit {0}) → Type 0
  Ends = Post (λ v' _. Ended p payload config w v') (λ v' e. Stopped p payload config w v' e)

  with_lock-Ends :
      (is_proceed : decide (record_of p w key) ≡ proceed) (seen locked_at : ℕ) (v : World p)
      (records : Written
        (record_of p w)
        (record_of p v)
        key
        (some (locked p payload config w seen locked_at)))
      (elsewhere : Elsewhere p w v)
      → Ends (with_lock p payload config (some (locked p payload config w seen locked_at)) v)
  unfolding with_lock
  with_lock-Ends is_proceed seen locked_at v records elsewhere =
      let lock = locked p payload config w seen locked_at in
      Post-recover (handle_failure p payload config lock.attempt_count)
        (apply_event_ends p payload lock v (Written-at _ _ key _ records))
        (λ v' _ a.
          completed (
            Applied-Completed p payload config w is_proceed seen locked_at v records elsewhere v'
              a))
        (λ v' e u.
          Post-weaken
            (handle_failure_ends p payload config w seen locked_at e v'
              (still_held p payload config w is_proceed seen locked_at v records elsewhere v' u))
            (λ _ _ b. buried b) (λ _ _ s. s))

  -- The lock is always acquired on a record that may be tried.
  locking-Ends :
      decide (record_of p w key) ≡ proceed
      → (seen : ℕ) (v : World p) → Written (record_of p w) (record_of p v) key (some (entry seen))
      → Elsewhere p w v
      → Ends (continue (with_lock p payload config) (mark_processing p key v))
  locking-Ends is_proceed seen v records elsewhere =
      let open_entry = entered_open (received_of payload) seen (record_of p w key) is_proceed in
      let at_key : record_of p v key ≡ some (entry seen) = Written-at _ _ key _ records in
      let now_locked =
        λ (t : ℕ). updated_open (record_of p v key) (entry seen) t at_key open_entry in
      Post-continue (with_lock p payload config)
        (Post-raised (mark_processing_writes p key v) (mark_processing-PassesOn p key v))
        (λ v' d (t, written, answer, rest).
          let locked_doc : d ≡ some (started t (entry seen)) =
            answer ∙ found_open (record_of p v key) (entry seen) t at_key open_entry in
          rw locked_doc (
            with_lock-Ends is_proceed seen t v'
              (Written-Written _ _ _ key _ _ records (rw (now_locked t) at written))
              (Elsewhere-trans p w v v' elsewhere rest)))
        (λ v' e ((t, u, written, rest), raised). interrupted raised (
          Moves-after config.max_attempts _ _ _ key (some (entry seen))
            (some (started t (entry seen))) records
            (entered-Moves config.max_attempts (received_of payload) seen (record_of p w key))
            (rw (now_locked t) at written) (start (entry seen) t open_entry)))

  -- Nothing the records hold was lost when a write may have been made that receives the event.
  may_have_received :
      (v' : World p) (seen : ℕ)
      → Same (record_of p w) (record_of p v')
        ⊎ Written
            (record_of p w)
            (record_of p v')
            key
            (upserted (λ d. d) (new_record (received_of payload) seen) (record_of p w key))
      → (j : Str) → Moves config.max_attempts (record_of p w j) (record_of p v' j)
  may_have_received v' seen (inl same) = Same-Moves config.max_attempts _ _ same
  may_have_received v' seen (inr written) =
      Written-Moves config.max_attempts _ _ key (some (entry seen))
        (rw (upserted-entered (received_of payload) seen (record_of p w key)) at written)
        (entered-Moves config.max_attempts (received_of payload) seen (record_of p w key))

  proceed-Ends :
      decide (record_of p w key) ≡ proceed
      → (v : World p) → Same (record_of p w) (record_of p v)
      → Elsewhere p w v
      → Ends (on_decision p payload config proceed v)
  unfolding on_decision
  proceed-Ends is_proceed v same elsewhere =
      Post-continue (λ _ u. continue (with_lock p payload config) (mark_processing p key u))
        (Post-raised (mark_received_writes p (received_of payload) v)
          (mark_received-PassesOn p (received_of payload) v))
        (λ v' _ (seen, u, written, rest).
          locking-Ends is_proceed seen v'
            (Same-Written _ _ _ key _ same (
              rw (same key, upserted-entered (received_of payload) seen (record_of p w key)) at
                written))
            (Elsewhere-trans p w v v' elsewhere rest))
        (λ v' e ((seen, u, written, rest), raised).
          interrupted raised (
            may_have_received v' seen
              (Same-or-Written _ _ _ key _ same (rw (same key) at written))))

  skip_ends :
      (reason : SkipReason)
      → decide (record_of p w key) ≡ skip reason
      → (v : World p) → Same (record_of p w) (record_of p v)
      → Elsewhere p w v
      → Ended p payload config w v
  skip_ends reason is_skip v same elsewhere =
      let (d, found, closed) = skip_existing (record_of p w key) reason is_skip in
      skipped (record {
        existing = d;
        found = found;
        closed = closed;
        same_records = same;
        elsewhere = elsewhere;
      })

  decision-Ends :
      (decision : IdempotencyDecision)
      → decide (record_of p w key) ≡ decision
      → (v : World p) → Same (record_of p w) (record_of p v)
      → Elsewhere p w v
      → Ends (on_decision p payload config decision v)
  unfolding on_decision
  decision-Ends proceed is_proceed v same elsewhere = proceed-Ends is_proceed v same elsewhere
  decision-Ends (skip reason) is_skip v same elsewhere =
      returned (skip_ends reason is_skip v same elsewhere)

  pub check_idempotency_reads :
      Post
        (λ v decision.
          Same (record_of p w) (record_of p v)
          × Elsewhere p w v
          × (decide (record_of p w key) ≡ decision))
        (λ v e. Same (record_of p w) (record_of p v) × Elsewhere p w v)
        (check_idempotency p key w)
  unfolding check_idempotency
  check_idempotency_reads =
      Post-continue (λ existing v. (v, ok (decide existing)))
        (find_by_idempotency_key_reads p key w)
        (λ v existing ((same, read), elsewhere). returned (same, elsewhere, ap decide (sym read)))
        (λ v e r. r)

  -- However the services behave, `processEvent` either returns normally, and then the event was
  -- skipped with nothing changed, applied in full, or dead-lettered in full; or it throws, and then
  -- the error is the retry that it asks for, with the attempt recorded and no dead letter, or one that
  -- an operation on the records, the dead letters or their queue threw, and every record has only made
  -- moves of its life.
  pub process_event_ends :
      Post
        (λ w' _. Ended p payload config w w')
        (λ w' e. Stopped p payload config w w' e)
        (process_event p payload config w)
  unfolding process_event
  process_event_ends =
      Post-continue (on_decision p payload config)
        (Post-raised check_idempotency_reads (check_idempotency-PassesOn p key w))
        (λ v decision (same, elsewhere, decided). decision-Ends decision decided v same elsewhere)
        (λ v e ((same, elsewhere), raised).
          interrupted raised (Same-Moves config.max_attempts _ _ same))
