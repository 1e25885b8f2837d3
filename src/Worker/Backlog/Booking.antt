-- ===== src/Worker/Backlog/Booking.antt =====
-- What one job of a backlog, and all of them, make of the stores (gateway-worker/src/queue/worker.ts,
-- gateway-worker/src/processors/process-event.ts).
use fincart_assissment.Common.{
  ◌≡◌, refl, sym, ap, ◌∙◌, inl, inr, true, false, none, some, List, [], ◌∷◌, map,
}
use fincart_assissment.Common.Text.{Str, text}
use fincart_assissment.Contracts.{QueueJobPayload}
use fincart_assissment.Effects.{ok, throw}
use fincart_assissment.Effects.Post.{
  Post, returned, Post-continue, Post-recover, Post-weaken, Post-sure,
}
use fincart_assissment.Worker.Retry.{RetryPolicyConfig}
use fincart_assissment.Worker.World.{Platform, World}
use fincart_assissment.Worker.Repositories.Views.{record_of}
use fincart_assissment.Worker.ProcessEvent.{
  IdempotencyDecision, proceed, skip, SkipReason, decide, missing, get_payload_field, apply_event,
  on_decision, rethrow, process_event, event_job_processor,
}
use fincart_assissment.Worker.ProcessEvent.Outcome.{shipment_update, Completed}
use fincart_assissment.Worker.ProcessEvent.Ends.{check_idempotency_reads}
use fincart_assissment.Worker.ProcessEvent.Guarantees.{Unchanged}
use fincart_assissment.Worker.ProcessEvent.Job.{
  numbered, current_attempt, event_job_processor_completes,
}
use fincart_assissment.Worker.ProcessEvent.Reliable.{
  IsReliable, TakesLetters, check_idempotency-Succeeds,
}
use fincart_assissment.Worker.ProcessEvent.Unusable.{
  get_payload_field-cases, Rejected, process_event-Rejected,
}
use fincart_assissment.Worker.Backlog.Abstract.{Ledger, described, enter, book, book_all}
use fincart_assissment.Worker.Backlog.{is_skip, state_of, run_backlog, Represents}
use fincart_assissment.Worker.Backlog.Account.{
  one_more_key, Represents-Same, done-close, states-post,
}

module _ (p : Platform) (config : RetryPolicyConfig) (reliable : IsReliable p)
    (takes : TakesLetters p) (job : QueueJobPayload) (w : World p) (l : Ledger)
    (h : Represents p config w l) where
  abbrev payload : QueueJobPayload
  payload = numbered p config job 0 w

  abbrev Booked : World p → Type 0
  Booked w' = Represents p config w' (book job l)

  -- The job ends as `processEvent` does when that returns.
  through :
      {Q : World p → Type 0}
      → Post (λ w' _. Q w') (λ _ _. ⊥) (process_event p payload config w)
      → Post (λ w' _. Q w') (λ _ _. ⊥) (event_job_processor p config job 0 w)
  unfolding event_job_processor
  through r =
      rw (current_attempt p config job 0 w)
        (Post-recover (rethrow p config 1) r (λ _ _ q. q) (λ _ _ x. absurd x))

  skipped-Unchanged :
      (reason : SkipReason)
      → decide (record_of p w job.idempotency_key) ≡ skip reason
      → Post (λ w' _. Unchanged p payload config w w') (λ _ _. ⊥) (process_event p payload config w)
  unfolding process_event on_decision
  skipped-Unchanged reason is_skipped =
      Post-continue (on_decision p payload config)
        (Post-sure (check_idempotency_reads p payload config w)
          (check_idempotency-Succeeds p reliable.records job.idempotency_key w))
        (λ v decision (same, elsewhere, decided).
          rw (← decided) (rw is_skipped (returned (same, elsewhere))))
        (λ _ _ x. absurd x)

  book-skip :
      (reason : SkipReason)
      → decide (record_of p w job.idempotency_key) ≡ skip reason
      → book job l ≡ l
  unfolding book
  book-skip reason e =
      let done : l.is_done job.idempotency_key ≡ true = sym (h.done _) ∙ ap is_skip e in
      rw done refl

  book-proceed :
      decide (record_of p w job.idempotency_key) ≡ proceed
      → book job l ≡ enter job.idempotency_key (described job) l
  unfolding book
  book-proceed e =
      let open_event : l.is_done job.idempotency_key ≡ false = sym (h.done _) ∙ ap is_skip e in
      rw open_event refl

  described-fields :
      (shipment_id current_state : Str)
      → get_payload_field job.payload (text "shipmentId") ≡ ok shipment_id
      → get_payload_field job.payload (text "status") ≡ ok current_state
      → described job ≡ some (shipment_update job shipment_id current_state)
  unfolding described
  described-fields shipment_id current_state hs ht = rw (hs, ht) refl

  Completed-Booked :
      (w' : World p)
      → decide (record_of p w job.idempotency_key) ≡ proceed
      → Completed p payload config w w'
      → Booked w'
  Completed-Booked w' is_proceed c =
      let entered =
        book-proceed is_proceed
        ∙ ap (λ u. enter job.idempotency_key u l)
            (described-fields c.shipment_id c.current_state c.has_shipment_id c.has_status) in
      rw entered (record {
        done = done-close p config w w' l h job.idempotency_key _ refl c.records;
        states =
            states-post p config w w' l h (shipment_update job c.shipment_id c.current_state)
              c.stored c.shipments;
        given_up = ap (map (λ d. d.idempotency_key)) c.same_dead_letters ∙ h.given_up;
        queued = ap (map (λ j. j.idempotency_key)) c.same_dlq ∙ h.queued;
      })

  module _ (is_proceed : decide (record_of p w job.idempotency_key) ≡ proceed) (field : Str)
      (fails : (v : World p) → apply_event p payload v ≡ (v, throw (missing field)))
      (undescribed : described job ≡ none) where
    Rejected-Booked :
        (w' : World p)
        → Rejected p reliable.records takes payload config w is_proceed field fails w'
        → Booked w'
    Rejected-Booked w' (b, same) =
        let entered =
          book-proceed is_proceed ∙ ap (λ u. enter job.idempotency_key u l) undescribed in
        rw entered (record {
          done = done-close p config w w' l h job.idempotency_key _ refl b.records;
          states = λ id. ap state_of (same id) ∙ h.states id;
          given_up =
              one_more_key (λ d. d.idempotency_key) _ _ _ l.given_up b.dead_letters h.given_up;
          queued = one_more_key (λ j. j.idempotency_key) _ _ _ l.queued b.jobs h.queued;
        })

    rejected-Booked : Post (λ w' _. Booked w') (λ _ _. ⊥) (event_job_processor p config job 0 w)
    rejected-Booked = through (
        Post-weaken
          (process_event-Rejected p reliable.records takes payload config w is_proceed field fails)
          (λ w' _ r. Rejected-Booked w' r) (λ _ _ x. x))

  -- A job of any payload returns, and the stores are then as the ledger has it.
  event_job_processor-Booked :
      Post (λ w' _. Booked w') (λ _ _. ⊥) (event_job_processor p config job 0 w)
  unfolding apply_event described
  event_job_processor-Booked = by_decision (decide (record_of p w job.idempotency_key)) refl
    where
      by_fields :
          decide (record_of p w job.idempotency_key) ≡ proceed
          → Post (λ w' _. Booked w') (λ _ _. ⊥) (event_job_processor p config job 0 w)
      by_fields e = elim (get_payload_field-cases job.payload (text "shipmentId")) [
        | inr lacks ↦ rejected-Booked e (text "shipmentId") (λ v. rw lacks refl) (rw lacks refl)
        | inl (s, hs) ↦ elim (get_payload_field-cases job.payload (text "status")) [
          | inr lacks ↦
              rejected-Booked e (text "status") (λ v. rw (hs, lacks) refl) (rw (hs, lacks) refl)
          | inl (t, ht) ↦
              Post-weaken
                (event_job_processor_completes p config job 0 w reliable e {shipment_id = s}
                  {current_state = t} hs ht)
                (λ w' _ c. Completed-Booked w' e c) (λ _ _ x. x)
        ]
      ]

      by_decision :
          (d : IdempotencyDecision)
          → decide (record_of p w job.idempotency_key) ≡ d
          → Post (λ w' _. Booked w') (λ _ _. ⊥) (event_job_processor p config job 0 w)
      by_decision proceed e = by_fields e
      by_decision (skip reason) e = rw (book-skip reason e) (
          through (
            Post-weaken (skipped-Unchanged reason e)
              (λ w' _ (same, elsewhere).
                Represents-Same p config w w' l h same elsewhere.same_shipments
                  elsewhere.same_dead_letters elsewhere.same_dlq)
              (λ _ _ x. x)))

-- If MongoDB and the dead-letter queue answer, a backlog of any jobs is worked off, whatever is in
-- them: every run returns. If the stores are as a ledger has them, they are afterwards as the ledger
-- has them with the jobs booked in the order of the queue: a job whose event is done with changes
-- nothing, so of several with one key only the first counts; a job whose payload has both fields sets
-- the state of its shipment, and one that lacks a field is given up, each once.
pub run_backlog-book_all :
    (p : Platform) (config : RetryPolicyConfig)
    → IsReliable p
    → TakesLetters p
    → (jobs : List QueueJobPayload) (w : World p) (l : Ledger) → Represents p config w l
    → Post
        (λ w' _. Represents p config w' (book_all jobs l))
        (λ _ _. ⊥)
        (run_backlog p config jobs w)
unfolding run_backlog book_all
run_backlog-book_all p config reliable takes [] w l h = returned h
run_backlog-book_all p config reliable takes (job ∷ jobs) w l h =
    Post-continue (λ _. run_backlog p config jobs)
      (event_job_processor-Booked p config reliable takes job w l h)
      (λ v _ k. run_backlog-book_all p config reliable takes jobs v (book job l) k) (λ _ _ x. x)
