-- ===== src/Worker/ProcessEvent/Reliable.antt =====
-- When the services answer: the operations of gateway-worker/src/repositories/ then return.
use fincart_assissment.Worker.ProcessEvent.Outcome.{letter_of, job_of}
use fincart_assissment.Worker.Classifier.{ClassifiedError}
use fincart_assissment.Worker.World.{now}
use fincart_assissment.Worker.Records.{DeadLetterEventRecord, DeadLetterJob}
use fincart_assissment.Worker.Repositories.{
  attempt_entry, mark_failed, mark_dead_lettered, persist_dead_letter,
}
use fincart_assissment.Worker.ProcessEvent.{history_of, send_letter, send_job, dead_letter}
use fincart_assissment.Common.{[], ◌∷◌, ◌++◌, ℕ, Bool, Option}
use fincart_assissment.Common.Text.{Str}
use fincart_assissment.Contracts.{QueueJobPayload, ErrorCode}
use fincart_assissment.Effects.{ok, continue}
use fincart_assissment.Effects.Post.{Succeeds, continue-Succeeds}
use fincart_assissment.Worker.World.{Platform, World}
use fincart_assissment.Worker.Records.{ProcessedEventRecord, ActiveShipmentRecord}
use fincart_assissment.Worker.Repositories.{
  Received, find_by_idempotency_key, mark_received, mark_processing, mark_processed,
  upsert_shipment, ShipmentUpdate,
}
use fincart_assissment.Worker.ProcessEvent.{decide, check_idempotency}

-- MongoDB answers every operation on the records of events.
pub record AnswersRecords (p : Platform) : Type 0 where
  pub find_one :
      (key : Str) (s : p.processed_events.State) → Succeeds (p.processed_events.find_one key s)
  pub update :
      (key : Str) (filter : ProcessedEventRecord → Bool)
      (change : ProcessedEventRecord → ProcessedEventRecord) (s : p.processed_events.State)
      → Succeeds (p.processed_events.update key filter change s)
  pub upsert :
      (key : Str) (change : ProcessedEventRecord → ProcessedEventRecord)
      (fresh : ProcessedEventRecord) (s : p.processed_events.State)
      → Succeeds (p.processed_events.upsert key change fresh s)

-- And every write of a shipment: the two collections that events are applied to.
pub record IsReliable (p : Platform) : Type 0 where
  pub records : AnswersRecords p
  pub upsert_one :
      (key : Str) (change : ActiveShipmentRecord → ActiveShipmentRecord)
      (fresh : ActiveShipmentRecord) (s : p.active_shipments.State)
      → Succeeds (p.active_shipments.upsert key change fresh s)

module _ (p : Platform) (reliable : AnswersRecords p) where
  pub check_idempotency-Succeeds : (key : Str) (w : World p) → Succeeds (check_idempotency p key w)
  unfolding check_idempotency find_by_idempotency_key
  check_idempotency-Succeeds key w =
      continue-Succeeds (λ existing v. (v, ok (decide existing))) (find_by_idempotency_key p key w)
        (reliable.find_one key w.processed) (λ a v. tt)

  pub mark_received-Succeeds : (r : Received) (w : World p) → Succeeds (mark_received p r w)
  unfolding mark_received
  mark_received-Succeeds r w = reliable.upsert r.idempotency_key _ _ w.processed

  pub mark_processing-Succeeds : (key : Str) (w : World p) → Succeeds (mark_processing p key w)
  unfolding mark_processing
  mark_processing-Succeeds key w = reliable.update key _ _ w.processed

  pub mark_processed-Succeeds : (key : Str) (w : World p) → Succeeds (mark_processed p key w)
  unfolding mark_processed
  mark_processed-Succeeds key w =
      continue-Succeeds (λ _ v. (v, ok tt)) _ (reliable.update key _ _ w.processed) (λ a v. tt)

pub mark_failed-Succeeds :
    (p : Platform) (reliable : AnswersRecords p) (key : Str) (code : ErrorCode) (message : Str)
    (attempt : ℕ) (w : World p)
    → Succeeds (mark_failed p key code message attempt w)
unfolding mark_failed
mark_failed-Succeeds p reliable key code message attempt w =
    continue-Succeeds (λ _ v. (v, ok tt)) _ (reliable.update key _ _ w.processed) (λ a v. tt)

pub upsert_shipment-Succeeds :
    (p : Platform) (reliable : IsReliable p) (r : ShipmentUpdate) (w : World p)
    → Succeeds (upsert_shipment p r w)
unfolding upsert_shipment
upsert_shipment-Succeeds p reliable r w = reliable.upsert_one r.shipment_id _ _ w.shipments

-- The two stores of dead letters take every entry.
pub record TakesLetters (p : Platform) : Type 0 where
  pub add_letter :
      (d : DeadLetterEventRecord) (s : p.dead_letter_events.State)
      → Succeeds (p.dead_letter_events.add d s)
  pub add_job : (d : DeadLetterJob) (s : p.dlq_queue.State) → Succeeds (p.dlq_queue.add d s)

module _ (p : Platform) (reliable : AnswersRecords p) (takes : TakesLetters p) where
  send_letter-Succeeds :
      (payload : QueueJobPayload) (attempt : ℕ) (classified : ClassifiedError)
      (existing : Option ProcessedEventRecord) (v : World p)
      → Succeeds (send_letter p payload attempt classified existing v)
  unfolding persist_dead_letter
  send_letter-Succeeds payload attempt classified existing v =
      let t = (p.host.now v.clock).1 in
      let history =
        history_of existing ++ attempt_entry classified.code classified.message attempt t ∷ [] in
      continue-Succeeds (λ _ u. continue (send_job p payload attempt classified history) (now p u))
        (persist_dead_letter p (letter_of payload attempt classified history)
          (record v { clock = (p.host.now v.clock).0 }))
        (takes.add_letter _ v.dead_letters)
        (λ _ u.
          takes.add_job (job_of payload attempt classified history (p.host.now u.clock).1) u.dlq)

  pub dead_letter-Succeeds :
      (payload : QueueJobPayload) (attempt : ℕ) (classified : ClassifiedError) (v : World p)
      → Succeeds (dead_letter p payload attempt classified v)
  unfolding dead_letter mark_dead_lettered find_by_idempotency_key
  dead_letter-Succeeds payload attempt classified v =
      let key = payload.idempotency_key in
      continue-Succeeds
        (λ _ u.
          continue (send_letter p payload attempt classified) (find_by_idempotency_key p key u))
        _
        (continue-Succeeds (λ _ u. (u, ok tt)) _ (reliable.update key _ _ v.processed) (λ _ _. tt))
        (λ _ u.
          continue-Succeeds (send_letter p payload attempt classified) _
            (reliable.find_one key u.processed)
            (λ existing x. send_letter-Succeeds payload attempt classified existing x))
