-- ===== src/Worker/ProcessEvent/Holding.antt =====
-- A record whose lock a worker of `processEvent` still has after an attempt that threw.
use fincart_assissment.Common.{ℕ, ◌≡◌, some}
use fincart_assissment.Common.Text.{Str}
use fincart_assissment.Contracts.{QueueJobPayload}
use fincart_assissment.Worker.Retry.{RetryPolicyConfig}
use fincart_assissment.Services.{Written}
use fincart_assissment.Worker.World.{Platform, World}
use fincart_assissment.Worker.Records.{ProcessedEventRecord, dead_lettered}
use fincart_assissment.Worker.Repositories.{closed_as}
use fincart_assissment.Worker.Repositories.Views.{record_of, dead_letters_of, dlq_of}
use fincart_assissment.Worker.Lifecycle.{IsHeld, Moves}
use fincart_assissment.Worker.ProcessEvent.Views.{Written-at}
use fincart_assissment.Worker.ProcessEvent.Outcome.{locked}

module _ (p : Platform) (payload : QueueJobPayload) (config : RetryPolicyConfig) (w : World p)
    (seen locked_at : ℕ) where
  abbrev key : Str
  key = payload.idempotency_key

  abbrev lock : ProcessedEventRecord
  lock = locked p payload config w seen locked_at

  -- The worker still holds the record, after an attempt that threw.
  pub record Holding (v : World p) : Type 0 where
    pub held : ProcessedEventRecord
    pub is_held : IsHeld held
    pub same_count : held.attempt_count ≡ lock.attempt_count
    pub same_history : held.attempt_history ≡ lock.attempt_history
    pub same_burial :
        (t u : ℕ) → closed_as dead_lettered t u held ≡ closed_as dead_lettered t u lock
    pub moves : Moves config.max_attempts (record_of p w key) (some held)
    pub records : Written (record_of p w) (record_of p v) key (some held)
    pub same_dead_letters : dead_letters_of p v ≡ dead_letters_of p w
    pub same_dlq : dlq_of p v ≡ dlq_of p w

  module _ (v : World p) (h : Holding v) where
    pub held_at : record_of p v key ≡ some h.held
    held_at = Written-at _ _ key _ h.records
