-- ===== src/Worker/ProcessEvent/Completion.antt =====
-- `processEvent` when the services answer (gateway-worker/src/processors/process-event.ts).
use fincart_assissment.Worker.ProcessEvent.{missing}
use fincart_assissment.Common.{ℕ, ◌≡◌, refl, some}
use fincart_assissment.Common.Text.{Str, text}
use fincart_assissment.Contracts.{QueueJobPayload}
use fincart_assissment.Effects.{ok, throw}
use fincart_assissment.Effects.Post.{
  Post, Post-weaken, Post-recover, Succeeds, continue-Succeeds, Post-sure,
}
use fincart_assissment.Services.{Written}
use fincart_assissment.Worker.Retry.{RetryPolicyConfig}
use fincart_assissment.Worker.World.{Platform, World}
use fincart_assissment.Worker.Repositories.{mark_processed}
use fincart_assissment.Worker.Repositories.Views.{Elsewhere, record_of}
use fincart_assissment.Worker.ProcessEvent.{
  proceed, decide, get_payload_field, apply_event, handle_failure, with_lock, process_event,
}
use fincart_assissment.Worker.ProcessEvent.Views.{Written-at}
use fincart_assissment.Worker.ProcessEvent.Outcome.{locked, Completed, Buried}
use fincart_assissment.Worker.ProcessEvent.Stages.{apply_event_ends}
use fincart_assissment.Worker.ProcessEvent.Unusable.{process_event-Rejected}
use fincart_assissment.Worker.ProcessEvent.Reliable.{
  IsReliable, TakesLetters, mark_processed-Succeeds, upsert_shipment-Succeeds,
}
use fincart_assissment.Worker.ProcessEvent.Entering.{entering}
use fincart_assissment.Worker.ProcessEvent.Locked.{Applied-Completed}

module _ (p : Platform) (reliable : IsReliable p) (payload : QueueJobPayload)
    (config : RetryPolicyConfig) (w : World p)
    (is_proceed : decide (record_of p w payload.idempotency_key) ≡ proceed) where
  abbrev key : Str
  key = payload.idempotency_key

  module _ {shipment_id current_state : Str}
      (has_shipment_id : get_payload_field payload.payload (text "shipmentId") ≡ ok shipment_id)
      (has_status : get_payload_field payload.payload (text "status") ≡ ok current_state) where
    apply_event-Succeeds : (v : World p) → Succeeds (apply_event p payload v)
    unfolding apply_event
    apply_event-Succeeds v =
        rw (has_shipment_id, has_status)
          (continue-Succeeds (λ _. mark_processed p key) _ (upsert_shipment-Succeeds p reliable _ v)
            (λ _ u. mark_processed-Succeeds p reliable.records key u))

    with_lock_completes :
        (seen locked_at : ℕ) (v : World p)
        → Written
            (record_of p w)
            (record_of p v)
            key
            (some (locked p payload config w seen locked_at))
        → Elsewhere p w v
        → Post
            (λ v' _. Completed p payload config w v')
            (λ _ _. ⊥)
            (with_lock p payload config (some (locked p payload config w seen locked_at)) v)
    unfolding with_lock
    with_lock_completes seen locked_at v records elsewhere =
        let lock = locked p payload config w seen locked_at in
        Post-recover (handle_failure p payload config lock.attempt_count)
          (Post-sure (apply_event_ends p payload lock v (Written-at _ _ key _ records))
            (apply_event-Succeeds v))
          (λ v' _ a.
            Applied-Completed p payload config w is_proceed seen locked_at v records elsewhere v' a)
          (λ _ _ x. absurd x)

    -- If MongoDB answers, the payload has its two fields, and the event has no record or one that
    -- is `received` or `failed`, then `processEvent` returns and the event was applied in full.
    pub process_event_completes :
        Post (λ w' _. Completed p payload config w w') (λ _ _. ⊥) (process_event p payload config w)
    process_event_completes =
        entering p reliable.records payload config w is_proceed with_lock_completes

  module _ (takes : TakesLetters p)
      (lacks : get_payload_field payload.payload (text "shipmentId")
        ≡ throw (missing (text "shipmentId"))) where
    apply_event-lacks :
        (v : World p) → apply_event p payload v ≡ (v, throw (missing (text "shipmentId")))
    unfolding apply_event
    apply_event-lacks v = rw lacks refl

    -- If MongoDB and the dead-letter queue answer, the payload lacks `shipmentId` or has it blank, and
    -- the event has no record or one that is `received` or `failed`, then `processEvent` returns and
    -- the event was dead-lettered in full, whatever attempts are left.
    pub process_event_buries :
        Post (λ w' _. Buried p payload config w w') (λ _ _. ⊥) (process_event p payload config w)
    process_event_buries =
        Post-weaken
          (process_event-Rejected p reliable.records takes payload config w is_proceed
            (text "shipmentId") apply_event-lacks)
          (λ w' _ (buried, same). buried) (λ _ _ x. x)
