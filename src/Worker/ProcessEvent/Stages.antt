-- ===== src/Worker/ProcessEvent/Stages.antt =====
-- The body of the `try` of `processEvent`.
use fincart_assissment.Common.{ℕ, ◌≡◌, refl, ◌∙◌, ◌⊎◌, inl, some}
use fincart_assissment.Common.Text.{Str, text}
use fincart_assissment.Contracts.{QueueJobPayload}
use fincart_assissment.Effects.{Reply, ok, throw, Action, continue}
use fincart_assissment.Effects.Post.{Post, thrown, Post-continue, Post-weaken}
use fincart_assissment.Worker.Classifier.{Thrown}
use fincart_assissment.Services.{Written, Same, upserted}
use fincart_assissment.Worker.World.{Platform, World, Act}
use fincart_assissment.Worker.Records.{ProcessedEventRecord, processed}
use fincart_assissment.Worker.Repositories.{
  closed_as, set_shipment, new_shipment, upsert_shipment, mark_processed,
}
use fincart_assissment.Worker.Repositories.Views.{record_of, shipment_of, dead_letters_of, dlq_of}
use fincart_assissment.Worker.Repositories.Shipments.{ShipmentWritten, upsert_shipment_writes}
use fincart_assissment.Worker.Repositories.Writes.{mark_processed_writes}
use fincart_assissment.Worker.ProcessEvent.{get_payload_field, apply_event}
use fincart_assissment.Worker.ProcessEvent.Views.{Same-Written, Written-Same, Same-or-Written}
use fincart_assissment.Worker.ProcessEvent.Outcome.{shipment_update}

-- Going on with a value that the state has no part in.
Post-value :
    {W A B : Type 0} {Q : W → B → Type 0} {R : W → Thrown → Type 0} (f : A → Action W Thrown B)
    (v : W) (r : Reply Thrown A)
    → ((a : A) → r ≡ ok a → Post Q R (f a v))
    → ((e : Thrown) → R v e)
    → Post Q R (continue f (v, r))
Post-value f v (ok a) h k = h a refl
Post-value f v (throw e) h k = thrown (k e)

module _ (p : Platform) (payload : QueueJobPayload) where
  -- The body of the `try` ran to its end, on a record that was `d`.
  pub record Applied (d : ProcessedEventRecord) (v v' : World p) : Type 0 where
    pub shipment_id : Str
    pub current_state : Str
    pub has_shipment_id : get_payload_field payload.payload (text "shipmentId") ≡ ok shipment_id
    pub has_status : get_payload_field payload.payload (text "status") ≡ ok current_state
    pub now : ℕ
    pub later : ℕ
    pub stored : ℕ
    pub records :
        Written
          (record_of p v)
          (record_of p v')
          payload.idempotency_key
          (some (closed_as processed now later d))
    pub shipments : Written (shipment_of p v) (shipment_of p v') shipment_id (
        upserted
          (set_shipment (shipment_update payload shipment_id current_state) stored)
          (new_shipment (shipment_update payload shipment_id current_state) stored)
          (shipment_of p v shipment_id))
    pub same_dead_letters : dead_letters_of p v' ≡ dead_letters_of p v
    pub same_dlq : dlq_of p v' ≡ dlq_of p v

  -- It threw: the record is as it was, or `processed` with the acknowledgement lost.
  pub record Unapplied (d : ProcessedEventRecord) (v v' : World p) : Type 0 where
    pub now : ℕ
    pub later : ℕ
    pub records :
        Same (record_of p v) (record_of p v')
        ⊎ Written
            (record_of p v)
            (record_of p v')
            payload.idempotency_key
            (some (closed_as processed now later d))
    pub same_dead_letters : dead_letters_of p v' ≡ dead_letters_of p v
    pub same_dlq : dlq_of p v' ≡ dlq_of p v

  abbrev unchanged : (d : ProcessedEventRecord) (v : World p) → Unapplied d v v
  unchanged d v = record {
    now = 0;
    later = 0;
    records = inl (λ j. refl);
    same_dead_letters = refl;
    same_dlq = refl;
  }

  -- The last step, after the shipment was written.
  marked :
      (d : ProcessedEventRecord) (v : World p)
      → record_of p v payload.idempotency_key ≡ some d
      → (shipment_id current_state : Str)
      → get_payload_field payload.payload (text "shipmentId") ≡ ok shipment_id
      → get_payload_field payload.payload (text "status") ≡ ok current_state
      → (v₁ : World p) → ShipmentWritten p (shipment_update payload shipment_id current_state) v v₁
      → Post
          (λ v' _. Applied d v v')
          (λ v' _. Unapplied d v v')
          (mark_processed p payload.idempotency_key v₁)
  marked d v at_key shipment_id current_state hs ht v₁ s =
      let here : record_of p v₁ payload.idempotency_key ≡ some d =
        s.same_records payload.idempotency_key ∙ at_key in
      Post-weaken (mark_processed_writes p payload.idempotency_key v₁)
        (λ v' _ (now, later, written, rest). record {
          shipment_id = shipment_id;
          current_state = current_state;
          has_shipment_id = hs;
          has_status = ht;
          now = now;
          later = later;
          stored = s.now;
          records = Same-Written _ _ _ _ _ s.same_records (rw here at written);
          shipments = Written-Same _ _ _ _ _ s.written rest.same_shipments;
          same_dead_letters = rest.same_dead_letters ∙ s.same_dead_letters;
          same_dlq = rest.same_dlq ∙ s.same_dlq;
        })
        (λ v' _ (now, later, written, rest). record {
          now = now;
          later = later;
          records = Same-or-Written _ _ _ _ _ s.same_records (rw here at written);
          same_dead_letters = rest.same_dead_letters ∙ s.same_dead_letters;
          same_dlq = rest.same_dlq ∙ s.same_dlq;
        })

  -- `apply_event` after its first and its second value.
  abbrev with_state : Str → Str → Act p (Unit {0})
  with_state shipment_id current_state v =
      continue (λ _. mark_processed p payload.idempotency_key)
        (upsert_shipment p (shipment_update payload shipment_id current_state) v)

  abbrev with_id : Str → Act p (Unit {0})
  with_id shipment_id v =
      continue (with_state shipment_id) (v, get_payload_field payload.payload (text "status"))

  pub apply_event_ends :
      (d : ProcessedEventRecord) (v : World p)
      → record_of p v payload.idempotency_key ≡ some d
      → Post (λ v' _. Applied d v v') (λ v' _. Unapplied d v v') (apply_event p payload v)
  unfolding apply_event
  apply_event_ends d v at_key =
      Post-value with_id v (get_payload_field payload.payload (text "shipmentId"))
        (λ shipment_id hs.
          Post-value (with_state shipment_id) v (get_payload_field payload.payload (text "status"))
            (λ current_state ht.
              Post-continue (λ _. mark_processed p payload.idempotency_key)
                (upsert_shipment_writes p (shipment_update payload shipment_id current_state) v)
                (λ v₁ _ s. marked d v at_key shipment_id current_state hs ht v₁ s)
                (λ v₁ _ s. record {
                  now = 0;
                  later = 0;
                  records = inl s.same_records;
                  same_dead_letters = s.same_dead_letters;
                  same_dlq = s.same_dlq;
                }))
            (λ _. unchanged d v))
        (λ _. unchanged d v)
