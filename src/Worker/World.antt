-- ===== src/Worker/World.antt =====
-- The state that the worker's code shares, over the services of a platform, and the actions on one
-- part of it.
use fincart_assissment.Common.{ℕ}
use fincart_assissment.Effects.{Reply, ok, Action}
use fincart_assissment.Worker.Number.Double.{Number}
use fincart_assissment.Worker.Classifier.{Thrown}
use fincart_assissment.Services.{Collection, Journal}
use fincart_assissment.Worker.Records.{
  ProcessedEventRecord, ActiveShipmentRecord, DeadLetterEventRecord, DeadLetterJob,
}

-- `Date.now()` in milliseconds, and `Math.random()`.
pub record Host : Type 1 where
  pub State : Type 0
  pub now : State → State × ℕ
  pub random : State → State × Number

pub record Platform : Type 1 where
  pub processed_events : Collection Thrown ProcessedEventRecord
  pub active_shipments : Collection Thrown ActiveShipmentRecord
  pub dead_letter_events : Journal Thrown DeadLetterEventRecord
  pub dlq_queue : Journal Thrown DeadLetterJob
  pub host : Host

pub record World (p : Platform) : Type 0 where
  pub processed : p.processed_events.State
  pub shipments : p.active_shipments.State
  pub dead_letters : p.dead_letter_events.State
  pub dlq : p.dlq_queue.State
  pub clock : p.host.State

abbrev pub Act : Platform → Type 0 → Type 0
Act p A = Action (World p) Thrown A

module _ (p : Platform) where
  abbrev pub on_processed :
      {A : Type 0}
      → (p.processed_events.State → p.processed_events.State × Reply Thrown A)
      → Act p A
  on_processed op w = let r = op w.processed in (record w { processed = r.0 }, r.1)

  abbrev pub on_shipments :
      {A : Type 0}
      → (p.active_shipments.State → p.active_shipments.State × Reply Thrown A)
      → Act p A
  on_shipments op w = let r = op w.shipments in (record w { shipments = r.0 }, r.1)

  abbrev pub on_dead_letters :
      {A : Type 0}
      → (p.dead_letter_events.State → p.dead_letter_events.State × Reply Thrown A)
      → Act p A
  on_dead_letters op w = let r = op w.dead_letters in (record w { dead_letters = r.0 }, r.1)

  abbrev pub on_dlq :
      {A : Type 0} → (p.dlq_queue.State → p.dlq_queue.State × Reply Thrown A) → Act p A
  on_dlq op w = let r = op w.dlq in (record w { dlq = r.0 }, r.1)

  -- `Date.now()` and `Math.random()`.
  abbrev pub now : Act p ℕ
  now w = let r = p.host.now w.clock in (record w { clock = r.0 }, ok r.1)

  abbrev pub random : Act p Number
  random w = let r = p.host.random w.clock in (record w { clock = r.0 }, ok r.1)
