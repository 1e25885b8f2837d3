-- ===== src/Worker/ProcessEvent/Entering.antt =====
-- `processEvent` on an event that may be tried, when MongoDB answers the operations on the records:
-- the worker gets the lock (gateway-worker/src/processors/process-event.ts).
use fincart_assissment.Common.{ℕ, ◌≡◌, sym, ◌∙◌, some}
use fincart_assissment.Common.Text.{Str}
use fincart_assissment.Contracts.{QueueJobPayload}
use fincart_assissment.Effects.{continue}
use fincart_assissment.Effects.Post.{Post, Post-continue, Post-sure}
use fincart_assissment.Services.{Written, Same}
use fincart_assissment.Worker.Retry.{RetryPolicyConfig}
use fincart_assissment.Worker.World.{Platform, World}
use fincart_assissment.Worker.Records.{ProcessedEventRecord}
use fincart_assissment.Worker.Repositories.{mark_processing, started}
use fincart_assissment.Worker.Repositories.Views.{Elsewhere, Elsewhere-trans, record_of}
use fincart_assissment.Worker.Repositories.Writes.{mark_received_writes, mark_processing_writes}
use fincart_assissment.Worker.ProcessEvent.{proceed, decide, with_lock, on_decision, process_event}
use fincart_assissment.Worker.ProcessEvent.Views.{Same-Written, Written-Written, Written-at}
use fincart_assissment.Worker.ProcessEvent.Outcome.{received_of, entered, locked}
use fincart_assissment.Worker.ProcessEvent.Reliable.{
  check_idempotency-Succeeds, mark_received-Succeeds, mark_processing-Succeeds,
}
use fincart_assissment.Worker.ProcessEvent.Ends.{check_idempotency_reads}
use fincart_assissment.Worker.ProcessEvent.Entered.{
  entered_open, upserted-entered, updated_open, found_open,
}
use fincart_assissment.Worker.ProcessEvent.Reliable.{AnswersRecords}
use fincart_assissment.Worker.Classifier.{Thrown}

module _ (p : Platform) (reliable : AnswersRecords p) (payload : QueueJobPayload)
    (config : RetryPolicyConfig) (w : World p)
    (is_proceed : decide (record_of p w payload.idempotency_key) ≡ proceed) where
  abbrev key : Str
  key = payload.idempotency_key

  abbrev entry : ℕ → ProcessedEventRecord
  entry seen = entered (received_of payload) seen (record_of p w key)

  module _ {Q : World p → Type 0} {R : World p → Thrown → Type 0}
      (finish : (seen locked_at : ℕ) (v : World p)
        → Written
            (record_of p w)
            (record_of p v)
            key
            (some (locked p payload config w seen locked_at))
        → Elsewhere p w v
        → Post
            (λ v' _. Q v')
            R
            (with_lock p payload config (some (locked p payload config w seen locked_at)) v)) where
    locking_completes :
        (seen : ℕ) (v : World p)
        → Written (record_of p w) (record_of p v) key (some (entry seen))
        → Elsewhere p w v
        → Post (λ v' _. Q v') R (continue (with_lock p payload config) (mark_processing p key v))
    locking_completes seen v records elsewhere =
        let open_entry = entered_open (received_of payload) seen (record_of p w key) is_proceed in
        let at_key : record_of p v key ≡ some (entry seen) = Written-at _ _ key _ records in
        Post-continue (with_lock p payload config)
          (Post-sure (mark_processing_writes p key v) (mark_processing-Succeeds p reliable key v))
          (λ v' d (t, written, answer, rest).
            let locked_doc : d ≡ some (started t (entry seen)) =
              answer ∙ found_open (record_of p v key) (entry seen) t at_key open_entry in
            rw locked_doc (
              finish seen t v'
                (Written-Written _ _ _ key _ _ records (
                  rw (updated_open (record_of p v key) (entry seen) t at_key open_entry) at
                    written))
                (Elsewhere-trans p w v v' elsewhere rest)))
          (λ _ _ x. absurd x)

    proceed_completes :
        (v : World p)
        → Same (record_of p w) (record_of p v)
        → Elsewhere p w v
        → Post (λ v' _. Q v') R (on_decision p payload config proceed v)
    unfolding on_decision
    proceed_completes v same elsewhere =
        Post-continue (λ _ u. continue (with_lock p payload config) (mark_processing p key u))
          (Post-sure (mark_received_writes p (received_of payload) v)
            (mark_received-Succeeds p reliable (received_of payload) v))
          (λ v' _ (seen, u, written, rest).
            locking_completes seen v'
              (Same-Written _ _ _ key _ same (
                rw (same key, upserted-entered (received_of payload) seen (record_of p w key)) at
                  written))
              (Elsewhere-trans p w v v' elsewhere rest))
          (λ _ _ x. absurd x)

    -- The worker gets the lock, and how it ends is up to what it does then.
    pub entering : Post (λ w' _. Q w') R (process_event p payload config w)
    unfolding process_event
    entering =
        Post-continue (on_decision p payload config)
          (Post-sure (check_idempotency_reads p payload config w)
            (check_idempotency-Succeeds p reliable key w))
          (λ v decision (same, elsewhere, decided).
            rw (sym decided ∙ is_proceed) (proceed_completes v same elsewhere))
          (λ _ _ x. absurd x)
