-- ===== src/Worker/Backlog.antt =====
-- The jobs of the main queue, one after the other as they were added
-- (gateway-worker/src/queue/worker.ts, one job at a time).
pub mod Abstract
pub mod Account
pub mod Booking
pub mod Again
use fincart_assissment.Common.{
  ℕ, ◌≡◌, refl, sym, ap, ◌∙◌, ◌⊎◌, inl, inr, Bool, true, false, ◌||◌, Bool-cases, Option, none,
  some, List, [], ◌∷◌, ◌++◌, map,
}
use fincart_assissment.Common.Text.{Str, text, str_eq}
use fincart_assissment.Contracts.{QueueJobPayload}
use fincart_assissment.Effects.{ok, throw, return, ◌>>◌}
use fincart_assissment.Effects.Post.{
  Post, returned, Post-continue, Post-recover, Post-weaken, Post-sure,
}
use fincart_assissment.Services.{Same, Written, upserted}
use fincart_assissment.Worker.Retry.{RetryPolicyConfig}
use fincart_assissment.Worker.World.{Platform, World, Act}
use fincart_assissment.Worker.Records.{
  ProcessedEventRecord, ActiveShipmentRecord, DeadLetterEventRecord,
}
use fincart_assissment.Worker.Repositories.{ShipmentUpdate, set_shipment, new_shipment}
use fincart_assissment.Worker.Repositories.Views.{record_of, shipment_of, dead_letters_of, dlq_of}
use fincart_assissment.Worker.ProcessEvent.{
  IdempotencyDecision, proceed, skip, SkipReason, decide, missing, get_payload_field, apply_event,
  on_decision, rethrow, process_event, event_job_processor,
}
use fincart_assissment.Worker.ProcessEvent.Outcome.{shipment_update, Completed, Buried}
use fincart_assissment.Worker.ProcessEvent.Ends.{check_idempotency_reads}
use fincart_assissment.Worker.ProcessEvent.Guarantees.{Unchanged}
use fincart_assissment.Worker.ProcessEvent.Job.{
  numbered, current_attempt, event_job_processor_completes,
}
use fincart_assissment.Worker.ProcessEvent.Reliable.{
  IsReliable, AnswersRecords, TakesLetters, check_idempotency-Succeeds,
}
use fincart_assissment.Worker.ProcessEvent.Unusable.{
  get_payload_field-cases, Rejected, process_event-Rejected,
}
use fincart_assissment.Worker.Backlog.Abstract.{
  Ledger, described_by, described, post, close, enter, book, book_all,
}

abbrev pub is_skip : IdempotencyDecision → Bool
is_skip proceed = false
is_skip (skip reason) = true

-- A shipment without the instants of its writes.
abbrev pub state_of : Option ActiveShipmentRecord → Option ShipmentUpdate
state_of none = none
state_of (some d) = some (record {
  shipment_id = d.shipment_id;
  order_id = d.order_id;
  current_state = d.current_state;
  last_event_id = d.last_event_id;
  last_event_type = d.last_event_type;
  last_event_at = d.last_event_at;
  metadata = d.metadata;
})

module _ (p : Platform) (config : RetryPolicyConfig) where
  -- Every job is run once, in the order of the queue.
  unfoldable pub run_backlog : List QueueJobPayload → Act p (Unit {0})
  run_backlog [] = return tt
  run_backlog (job ∷ jobs) = event_job_processor p config job 0 >> run_backlog jobs

  -- The ledger is what can be seen of the stores, but for the times of the writes.
  pub record Represents (w : World p) (l : Ledger) : Type 0 where
    pub done : (key : Str) → is_skip (decide (record_of p w key)) ≡ l.is_done key
    pub states : (id : Str) → state_of (shipment_of p w id) ≡ l.states id
    pub given_up : map (λ d. d.idempotency_key) (dead_letters_of p w) ≡ l.given_up
    pub queued : map (λ j. j.idempotency_key) (dlq_of p w) ≡ l.queued
