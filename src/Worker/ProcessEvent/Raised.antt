-- ===== src/Worker/ProcessEvent/Raised.antt =====
-- The errors of the services, and the operations of gateway-worker/src/repositories/ that pass them on.
use fincart_assissment.Common.{◌≡◌, Bool, ℕ}
use fincart_assissment.Common.Text.{Str}
use fincart_assissment.Contracts.{ErrorCode}
use fincart_assissment.Effects.{Reply, ok, throw, Action, continue}
use fincart_assissment.Worker.Classifier.{Thrown}
use fincart_assissment.Worker.World.{Platform, World, on_dlq}
use fincart_assissment.Worker.Records.{ProcessedEventRecord, DeadLetterEventRecord, DeadLetterJob}
use fincart_assissment.Worker.Repositories.{
  Received, DeadLetter, find_by_idempotency_key, mark_received, mark_processing, mark_failed,
  mark_dead_lettered, persist_dead_letter,
}
use fincart_assissment.Worker.ProcessEvent.{decide, check_idempotency}

module _ (p : Platform) where
  -- An error that MongoDB throws from an operation on the records or the dead letters, or the queue of
  -- the dead letters.
  pub data Raised (e : Thrown) : Type 0 where
    by_find_one :
        (key : Str) (s : p.processed_events.State)
        → (p.processed_events.find_one key s).1 ≡ throw e
        → Raised e
    by_update :
        (key : Str) (filter : ProcessedEventRecord → Bool)
        (change : ProcessedEventRecord → ProcessedEventRecord) (s : p.processed_events.State)
        → (p.processed_events.update key filter change s).1 ≡ throw e
        → Raised e
    by_upsert :
        (key : Str) (change : ProcessedEventRecord → ProcessedEventRecord)
        (fresh : ProcessedEventRecord) (s : p.processed_events.State)
        → (p.processed_events.upsert key change fresh s).1 ≡ throw e
        → Raised e
    by_letters :
        (d : DeadLetterEventRecord) (s : p.dead_letter_events.State)
        → (p.dead_letter_events.add d s).1 ≡ throw e
        → Raised e
    by_queue :
        (d : DeadLetterJob) (s : p.dlq_queue.State) → (p.dlq_queue.add d s).1 ≡ throw e → Raised e

  -- What a run throws is an error of a service.
  abbrev pub PassesOn : {A : Type 0} → World p × Reply Thrown A → Type 0
  PassesOn r = (e : Thrown) → r.1 ≡ throw e → Raised e

  continue-PassesOn :
      {A B : Type 0} (f : A → Action (World p) Thrown B) (r : World p × Reply Thrown A)
      → PassesOn r
      → ((a : A) (u : World p) → PassesOn (f a u))
      → PassesOn (continue f r)
  continue-PassesOn f (u, ok a) h k e thrown = k a u e thrown
  continue-PassesOn f (u, throw x) h k e thrown = h e (cc)

  pub find_by_idempotency_key-PassesOn :
      (key : Str) (w : World p) → PassesOn (find_by_idempotency_key p key w)
  unfolding find_by_idempotency_key
  find_by_idempotency_key-PassesOn key w e h = by_find_one key w.processed h

  pub check_idempotency-PassesOn : (key : Str) (w : World p) → PassesOn (check_idempotency p key w)
  unfolding check_idempotency
  check_idempotency-PassesOn key w =
      continue-PassesOn (λ existing v. (v, ok (decide existing))) (find_by_idempotency_key p key w)
        (find_by_idempotency_key-PassesOn key w) (λ a u e h. absurd (cc))

  pub mark_received-PassesOn : (r : Received) (w : World p) → PassesOn (mark_received p r w)
  unfolding mark_received
  mark_received-PassesOn r w e h = by_upsert r.idempotency_key _ _ w.processed h

  pub mark_processing-PassesOn : (key : Str) (w : World p) → PassesOn (mark_processing p key w)
  unfolding mark_processing
  mark_processing-PassesOn key w e h = by_update key _ _ w.processed h

  pub mark_failed-PassesOn :
      (key : Str) (code : ErrorCode) (message : Str) (attempt : ℕ) (w : World p)
      → PassesOn (mark_failed p key code message attempt w)
  unfolding mark_failed
  mark_failed-PassesOn key code message attempt w =
      continue-PassesOn (λ _ v. (v, ok tt)) _ (λ e h. by_update key _ _ w.processed h)
        (λ a u e h. absurd (cc))

  pub mark_dead_lettered-PassesOn :
      (key : Str) (w : World p) → PassesOn (mark_dead_lettered p key w)
  unfolding mark_dead_lettered
  mark_dead_lettered-PassesOn key w =
      continue-PassesOn (λ _ v. (v, ok tt)) _ (λ e h. by_update key _ _ w.processed h)
        (λ a u e h. absurd (cc))

  pub persist_dead_letter-PassesOn :
      (r : DeadLetter) (w : World p) → PassesOn (persist_dead_letter p r w)
  unfolding persist_dead_letter
  persist_dead_letter-PassesOn r w e h = by_letters _ w.dead_letters h

  pub on_dlq-PassesOn :
      (job : DeadLetterJob) (w : World p) → PassesOn (on_dlq p (p.dlq_queue.add job) w)
  on_dlq-PassesOn job w e h = by_queue job w.dlq h
