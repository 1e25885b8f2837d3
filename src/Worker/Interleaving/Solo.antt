-- ===== src/Worker/Interleaving/Solo.antt =====
-- The operations that one run of `processEvent` (gateway-worker/src/processors/process-event.ts)
-- makes on its record, as steps of a worker.
use fincart_assissment.Common.{ℕ, ◌≡◌, refl, sym, ◌∙◌, inl, inr, true, Option, none, some}
use fincart_assissment.Contracts.{QueueJobPayload}
use fincart_assissment.Effects.{continue}
use fincart_assissment.Effects.Post.{Post, returned, Post-continue, Post-recover}
use fincart_assissment.Services.{updated}
use fincart_assissment.Worker.Retry.{RetryPolicyConfig}
use fincart_assissment.Worker.World.{Platform, World}
use fincart_assissment.Worker.Records.{ProcessedEventRecord, processed}
use fincart_assissment.Worker.Repositories.{is_open, started, closed_as, mark_processing}
use fincart_assissment.Worker.Repositories.Views.{record_of}
use fincart_assissment.Worker.Repositories.Writes.{mark_received_writes, mark_processing_writes}
use fincart_assissment.Worker.ProcessEvent.{
  IdempotencyDecision, proceed, skip, decide, handle_failure, with_lock, on_decision, process_event,
}
use fincart_assissment.Worker.ProcessEvent.Views.{Written-at}
use fincart_assissment.Worker.ProcessEvent.Outcome.{received_of}
use fincart_assissment.Worker.ProcessEvent.Stages.{apply_event_ends}
use fincart_assissment.Worker.ProcessEvent.Ends.{check_idempotency_reads}
use fincart_assissment.Worker.Interleaving.{
  begun, gated, entered, done, holding, after_gate, after_lock, check, receive, receive_lost, lock,
  lock_lost, finish, finish_lost, catch_error,
}
use fincart_assissment.Worker.Interleaving.Steps.{
  unmoved, step, found-updated, Reached, Follows, AllFollow, moved, stays, perhaps, failure_follows,
}

module _ (p : Platform) (payload : QueueJobPayload) (config : RetryPolicyConfig) (w : World p) where
  lock_follows :
      (o : Option ProcessedEventRecord) (v : World p)
      → Reached p payload config w (after_lock o) v
      → ((d : ProcessedEventRecord) → o ≡ some d → record_of p v payload.idempotency_key ≡ some d)
      → AllFollow p payload config w (with_lock p payload config o v)
  unfolding with_lock
  lock_follows none v run at_key = returned (done, run)
  lock_follows (some d) v run at_key =
      let n = d.attempt_count in
      let here = at_key d refl in
      Post-recover (handle_failure p payload config n) (apply_event_ends p payload d v here)
        (λ v₁ _ a. (
          done,
          moved p payload config w (holding n) v v₁ run (finish _ n a.now a.later) (
              Written-at _ _ payload.idempotency_key _ a.records
              ∙ sym (at_close a.now a.later here)),
        ))
        (λ v₁ e u. elim u.records [
          | inl same ↦ failure_follows p payload config w n e v₁ (
              moved p payload config w (holding n) v v₁ run (catch_error _ n)
                (same payload.idempotency_key))
          | inr written ↦ failure_follows p payload config w n e v₁ (
              moved p payload config w (holding n) v v₁ run (finish_lost _ n u.now u.later) (
                Written-at _ _ payload.idempotency_key _ written
                ∙ sym (at_close u.now u.later here)))
        ])
    where
      at_close :
          (t u : ℕ)
          → record_of p v payload.idempotency_key ≡ some d
          → updated (λ _. true) (closed_as processed t u) (record_of p v payload.idempotency_key)
            ≡ some (closed_as processed t u d)
      at_close t u e = rw e refl

  proceed_follows :
      (v : World p)
      → Reached p payload config w gated v
      → AllFollow p payload config w (on_decision p payload config proceed v)
  unfolding on_decision
  proceed_follows v run =
      Post-continue
        (λ _ u. continue (with_lock p payload config) (mark_processing p payload.idempotency_key u))
        (mark_received_writes p (received_of payload) v)
        (λ v₁ _ (seen, u, written, rest).
          let run₁ =
            moved p payload config w gated v v₁ run (receive _ (received_of payload) seen)
              (Written-at _ _ payload.idempotency_key _ written) in
          Post-continue (with_lock p payload config)
            (mark_processing_writes p payload.idempotency_key v₁)
            (λ v₂ o (t, written₂, answer, rest₂).
              let at_key : record_of p v₂ payload.idempotency_key
                  ≡ updated (λ r. is_open r.status) (started t)
                      (record_of p v₁ payload.idempotency_key) =
                Written-at _ _ payload.idempotency_key _ written₂ in
              lock_follows o v₂
                (rw answer (moved p payload config w entered v₁ v₂ run₁ (lock _ t) at_key))
                (λ d e.
                  at_key
                  ∙ found-updated (λ r. is_open r.status) (started t)
                      (record_of p v₁ payload.idempotency_key) d (sym answer ∙ e)))
            (λ v₂ e (t, u₂, written₂, rest₂).
              perhaps p payload config w entered v₁ v₂ run₁ (lock_lost _ t) written₂))
        (λ v₁ e (seen, u, written, rest).
          perhaps p payload config w gated v v₁ run (receive_lost _ (received_of payload) seen)
            written)

  decision_follows :
      (decision : IdempotencyDecision) (v : World p)
      → Reached p payload config w (after_gate decision) v
      → AllFollow p payload config w (on_decision p payload config decision v)
  unfolding on_decision
  decision_follows proceed v run = proceed_follows v run
  decision_follows (skip reason) v run = returned (done, run)

  -- However `processEvent` ends and whatever the services do, what it does to the record of its event
  -- is a sequence of the steps of which the runs of several workers are made.
  pub process_event-Follows :
      Post
        (λ v _. Follows p payload config w v)
        (λ v _. Follows p payload config w v)
        (process_event p payload config w)
  unfolding process_event
  process_event-Follows =
      Post-continue (on_decision p payload config) (check_idempotency_reads p payload config w)
        (λ v decision (same, elsewhere, decided). decision_follows decision v (
          rw (← decided) (
            stays p payload config w (after_gate (decide (record_of p w payload.idempotency_key))) w
              v (step unmoved (check (record_of p w payload.idempotency_key))) same)))
        (λ v e (same, elsewhere). (begun, stays p payload config w begun w v unmoved same))
