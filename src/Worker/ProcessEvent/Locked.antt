-- ===== src/Worker/ProcessEvent/Locked.antt =====
-- The record once `markProcessing` has locked it, and how the two ways through the `try` leave it.
use fincart_assissment.Common.{ℕ, ◌≡◌, refl, ◌∙◌, ◌⊎◌, inl, inr, some}
use fincart_assissment.Common.Text.{Str}
use fincart_assissment.Contracts.{QueueJobPayload}
use fincart_assissment.Worker.Retry.{RetryPolicyConfig}
use fincart_assissment.Services.{Written, Same, upserted}
use fincart_assissment.Worker.World.{Platform, World}
use fincart_assissment.Worker.Records.{processed, ProcessedEventRecord}
use fincart_assissment.Worker.Repositories.{closed_as, set_shipment, new_shipment}
use fincart_assissment.Worker.Repositories.Views.{record_of, Elsewhere}
use fincart_assissment.Worker.Lifecycle.{start, finish, Moves, next}
use fincart_assissment.Worker.ProcessEvent.{proceed, decide}
use fincart_assissment.Worker.ProcessEvent.Views.{
  Written-Same, Written-Written, Written-between, Written-Moves,
}
use fincart_assissment.Worker.ProcessEvent.Outcome.{
  shipment_update, received_of, entered, locked, Completed,
}
use fincart_assissment.Worker.ProcessEvent.Stages.{Applied, Unapplied}
use fincart_assissment.Worker.ProcessEvent.Holding.{Holding}
use fincart_assissment.Worker.ProcessEvent.Entered.{entered_open, entered-Moves}

module _ (p : Platform) (payload : QueueJobPayload) (config : RetryPolicyConfig) (w : World p) where
  abbrev key : Str
  key = payload.idempotency_key

  abbrev entry : ℕ → ProcessedEventRecord
  entry seen = entered (received_of payload) seen (record_of p w key)

  module _ (is_proceed : decide (record_of p w key) ≡ proceed) (seen locked_at : ℕ) (v : World p)
      (records : Written
        (record_of p w)
        (record_of p v)
        key
        (some (locked p payload config w seen locked_at)))
      (elsewhere : Elsewhere p w v) where
    abbrev lock : ProcessedEventRecord
    lock = locked p payload config w seen locked_at

    pub lock-Moves : Moves config.max_attempts (record_of p w key) (some lock)
    lock-Moves =
        next (entered-Moves config.max_attempts (received_of payload) seen (record_of p w key)) (
          start (entry seen) locked_at
            (entered_open (received_of payload) seen (record_of p w key) is_proceed))

    pub still_held :
        (v' : World p)
        → Unapplied p payload lock v v'
        → Holding p payload config w seen locked_at v'
    still_held v' u = go u.records
      where
        go :
            Same (record_of p v) (record_of p v')
              ⊎ Written
                  (record_of p v)
                  (record_of p v')
                  key
                  (some (closed_as processed u.now u.later lock))
            → Holding p payload config w seen locked_at v'
        go (inl same) = record {
          held = lock;
          is_held = inl refl;
          same_count = refl;
          same_history = refl;
          same_burial = λ _ _. refl;
          moves = lock-Moves;
          records = Written-Same _ _ _ key _ records same;
          same_dead_letters = u.same_dead_letters ∙ elsewhere.same_dead_letters;
          same_dlq = u.same_dlq ∙ elsewhere.same_dlq;
        }
        go (inr written) = record {
          held = closed_as processed u.now u.later lock;
          is_held = inr refl;
          same_count = refl;
          same_history = refl;
          same_burial = λ _ _. refl;
          moves = next lock-Moves (finish lock u.now u.later refl);
          records = Written-Written _ _ _ key _ _ records written;
          same_dead_letters = u.same_dead_letters ∙ elsewhere.same_dead_letters;
          same_dlq = u.same_dlq ∙ elsewhere.same_dlq;
        }

    -- The record as it was locked.
    pub untouched : Holding p payload config w seen locked_at v
    untouched = still_held v (record {
      now = 0;
      later = 0;
      records = inl (λ j. refl);
      same_dead_letters = refl;
      same_dlq = refl;
    })

    pub Applied-Completed :
        (v' : World p) → Applied p payload lock v v' → Completed p payload config w v'
    Applied-Completed v' a = record {
      seen = seen;
      locked_at = locked_at;
      now = a.now;
      later = a.later;
      shipment_id = a.shipment_id;
      current_state = a.current_state;
      has_shipment_id = a.has_shipment_id;
      has_status = a.has_status;
      records = Written-Written _ _ _ key _ _ records a.records;
      moves =
          Written-Moves config.max_attempts _ _ key (some (closed_as processed a.now a.later lock))
            (Written-Written _ _ _ key _ _ records a.records)
            (next lock-Moves (finish lock a.now a.later refl));
      stored = a.stored;
      shipments =
          Written-between _ _ _ _ a.shipment_id
            (upserted
              (set_shipment (shipment_update payload a.shipment_id a.current_state) a.stored)
              (new_shipment (shipment_update payload a.shipment_id a.current_state) a.stored))
            elsewhere.same_shipments a.shipments (λ j. refl);
      same_dead_letters = a.same_dead_letters ∙ elsewhere.same_dead_letters;
      same_dlq = a.same_dlq ∙ elsewhere.same_dlq;
    }
