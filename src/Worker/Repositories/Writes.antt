-- ===== src/Worker/Repositories/Writes.antt =====
-- What the operations on `processed_events` do to what can be seen of the stores
-- (gateway-worker/src/repositories/processed-events.repository.ts).
use fincart_assissment.Common.{ℕ, true, Option, ◌≡◌, refl, ◌⊎◌}
use fincart_assissment.Common.Text.{Str}
use fincart_assissment.Contracts.{ErrorCode}
use fincart_assissment.Effects.{Reply, ok, continue}
use fincart_assissment.Effects.Post.{Post, returned, thrown, Post-continue, Post-weaken}
use fincart_assissment.Worker.Classifier.{Thrown}
use fincart_assissment.Services.{updated, found, upserted, Written, Same}
use fincart_assissment.Worker.World.{Platform, World}
use fincart_assissment.Worker.Records.{ProcessedEventRecord, processed, dead_lettered}
use fincart_assissment.Worker.Repositories.{
  Received, new_record, is_open, started, closed_as, failed_with, find_by_idempotency_key,
  mark_received, mark_processing, mark_processed, mark_failed, mark_dead_lettered,
}
use fincart_assissment.Worker.Repositories.Views.{record_of, Elsewhere}

module _ (p : Platform) where
  module _ {A : Type 0} {Q : p.processed_events.State → A → Type 0}
      {R : p.processed_events.State → Thrown → Type 0} where
    on_processed_lem :
        (w : World p) (c : p.host.State) {r : p.processed_events.State × Reply Thrown A}
        → Post Q R r
        → Post
            (λ w' a. Q w'.processed a × Elsewhere p w w')
            (λ w' e. R w'.processed e × Elsewhere p w w')
            (record w { processed = r.0; clock = c }, r.1)
    on_processed_lem w c (returned {w = s} h) =
        returned {w = record w { processed = s; clock = c }}
          (h, record { same_shipments = λ j. refl; same_dead_letters = refl; same_dlq = refl })
    on_processed_lem w c (thrown {w = s} h) =
        thrown {w = record w { processed = s; clock = c }}
          (h, record { same_shipments = λ j. refl; same_dead_letters = refl; same_dlq = refl })

  -- Reading a record changes nothing.
  pub find_by_idempotency_key_reads :
      (key : Str) (w : World p)
      → Post
          (λ w' d.
            (Same (record_of p w) (record_of p w') × (d ≡ record_of p w key)) × Elsewhere p w w')
          (λ w' e. Same (record_of p w) (record_of p w') × Elsewhere p w w')
          (find_by_idempotency_key p key w)
  unfolding find_by_idempotency_key
  find_by_idempotency_key_reads key w =
      on_processed_lem w w.clock (p.processed_events.find_one_reads key w.processed)

  -- A record of the key has the given document, and if the write threw it may have it.
  abbrev pub Wrote : Str → World p → (ℕ → ℕ → Option ProcessedEventRecord) → World p → Type 0
  Wrote key w document w' =
      (now : ℕ) × (later : ℕ) × Written (record_of p w) (record_of p w') key (document now later)
      × Elsewhere p w w'

  abbrev pub MayHaveWritten :
      Str → World p → (ℕ → ℕ → Option ProcessedEventRecord) → World p → Type 0
  MayHaveWritten key w document w' =
      (now : ℕ) × (later : ℕ) × (Same (record_of p w) (record_of p w')
        ⊎ Written (record_of p w) (record_of p w') key (document now later))
      × Elsewhere p w w'

  pub mark_received_writes :
      (r : Received) (w : World p)
      → Post
          (λ w' _.
            Wrote r.idempotency_key w
              (λ now later. upserted (λ d. d) (new_record r now) (record_of p w r.idempotency_key))
              w')
          (λ w' e.
            MayHaveWritten r.idempotency_key w
              (λ now later. upserted (λ d. d) (new_record r now) (record_of p w r.idempotency_key))
              w')
          (mark_received p r w)
  unfolding mark_received
  mark_received_writes r w =
      let h = p.host.now w.clock in
      Post-weaken
        (on_processed_lem w h.0 (
          p.processed_events.upsert_writes r.idempotency_key (λ d. d) (new_record r h.1)
            w.processed))
        (λ w' a (written, rest). (h.1, h.1, written, rest))
        (λ w' e (written, rest). (h.1, h.1, written, rest))

  pub mark_processing_writes :
      (key : Str) (w : World p)
      → Post
          (λ w' d.
            (now : ℕ) × Written
              (record_of p w)
              (record_of p w')
              key
              (updated (λ r. is_open r.status) (started now) (record_of p w key))
            × (d ≡ found (λ r. is_open r.status) (started now) (record_of p w key))
            × Elsewhere p w w')
          (λ w' e.
            MayHaveWritten key w
              (λ now later. updated (λ r. is_open r.status) (started now) (record_of p w key))
              w')
          (mark_processing p key w)
  unfolding mark_processing
  mark_processing_writes key w =
      let h = p.host.now w.clock in
      Post-weaken
        (on_processed_lem w h.0
          (p.processed_events.update_writes key (λ d. is_open d.status) (started h.1) w.processed))
        (λ w' a ((written, answer), rest). (h.1, written, answer, rest))
        (λ w' e (written, rest). (h.1, h.1, written, rest))

  -- An update whose answer is dropped.
  dropped :
      (key : Str) (change : ℕ → ℕ → ProcessedEventRecord → ProcessedEventRecord) (now later : ℕ)
      (w : World p) (c : p.host.State)
      → let r = p.processed_events.update key (λ _. true) (change now later) w.processed in
        Post
          (λ w' _. Wrote key w (λ t u. updated (λ _. true) (change t u) (record_of p w key)) w')
          (λ w' e.
            MayHaveWritten key w (λ t u. updated (λ _. true) (change t u) (record_of p w key)) w')
          (continue (λ _ v. (v, ok tt)) (record w { processed = r.0; clock = c }, r.1))
  dropped key change now later w c =
      Post-continue (λ _ v. (v, ok tt))
        (on_processed_lem w c
          (p.processed_events.update_writes key (λ _. true) (change now later) w.processed))
        (λ w' a ((written, answer), rest). returned (now, later, written, rest))
        (λ w' x (written, rest). (now, later, written, rest))

  pub mark_processed_writes :
      (key : Str) (w : World p)
      → Post
          (λ w' _.
            Wrote key w
              (λ t u. updated (λ _. true) (closed_as processed t u) (record_of p w key))
              w')
          (λ w' e.
            MayHaveWritten key w
              (λ t u. updated (λ _. true) (closed_as processed t u) (record_of p w key))
              w')
          (mark_processed p key w)
  unfolding mark_processed
  mark_processed_writes key w = dropped key (closed_as processed) _ _ w _

  pub mark_dead_lettered_writes :
      (key : Str) (w : World p)
      → Post
          (λ w' _.
            Wrote key w
              (λ t u. updated (λ _. true) (closed_as dead_lettered t u) (record_of p w key))
              w')
          (λ w' e.
            MayHaveWritten key w
              (λ t u. updated (λ _. true) (closed_as dead_lettered t u) (record_of p w key))
              w')
          (mark_dead_lettered p key w)
  unfolding mark_dead_lettered
  mark_dead_lettered_writes key w = dropped key (closed_as dead_lettered) _ _ w _

  pub mark_failed_writes :
      (key : Str) (code : ErrorCode) (message : Str) (attempt : ℕ) (w : World p)
      → Post
          (λ w' _.
            Wrote key w
              (λ t u. updated (λ _. true) (failed_with code message attempt t) (record_of p w key))
              w')
          (λ w' e.
            MayHaveWritten key w
              (λ t u. updated (λ _. true) (failed_with code message attempt t) (record_of p w key))
              w')
          (mark_failed p key code message attempt w)
  unfolding mark_failed
  mark_failed_writes key code message attempt w =
      dropped key (λ t u. failed_with code message attempt t) _ 0 w _
