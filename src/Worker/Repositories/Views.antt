-- ===== src/Worker/Repositories/Views.antt =====
-- What can be seen of the stores that the worker writes to.
use fincart_assissment.Common.{Option, List, ◌≡◌, ◌∙◌}
use fincart_assissment.Common.Text.{Str}
use fincart_assissment.Services.{Same}
use fincart_assissment.Worker.World.{Platform, World}
use fincart_assissment.Worker.Records.{
  ProcessedEventRecord, ActiveShipmentRecord, DeadLetterEventRecord, DeadLetterJob,
}

module _ (p : Platform) where
  -- What can be seen of the four stores.
  abbrev pub record_of : World p → Str → Option ProcessedEventRecord
  record_of w = p.processed_events.view w.processed

  abbrev pub shipment_of : World p → Str → Option ActiveShipmentRecord
  shipment_of w = p.active_shipments.view w.shipments

  abbrev pub dead_letters_of : World p → List DeadLetterEventRecord
  dead_letters_of w = p.dead_letter_events.entries w.dead_letters

  abbrev pub dlq_of : World p → List DeadLetterJob
  dlq_of w = p.dlq_queue.entries w.dlq

  -- Nothing but the records of `processed_events` has changed.
  pub record Elsewhere (w w' : World p) : Type 0 where
    pub same_shipments : Same (shipment_of w) (shipment_of w')
    pub same_dead_letters : dead_letters_of w' ≡ dead_letters_of w
    pub same_dlq : dlq_of w' ≡ dlq_of w

  pub Elsewhere-trans : (u v w : World p) → Elsewhere u v → Elsewhere v w → Elsewhere u w
  Elsewhere-trans u v w a b = record {
    same_shipments = λ j. b.same_shipments j ∙ a.same_shipments j;
    same_dead_letters = b.same_dead_letters ∙ a.same_dead_letters;
    same_dlq = b.same_dlq ∙ a.same_dlq;
  }
