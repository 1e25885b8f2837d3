-- ===== src/Examples/Processing.antt =====
-- gateway-worker/ on an event, with its services in memory.
use fincart_assissment.Common.{◌≡◌, refl, ◌↔◌, none, some, [], arith}
use fincart_assissment.Common.Text.{Str, text, str_eq, is_blank}
use fincart_assissment.Contracts.{
  get_field, sha256, str, end, field, QueueJobPayload, permanent, transient_dependency_failure,
  permanent_failure,
}
use fincart_assissment.Effects.{ok, throw}
use fincart_assissment.Effects.Post.{Post}
use fincart_assissment.Worker.Number.Double.{whole}
use fincart_assissment.Worker.Retry.{RetryPolicyConfig}
use fincart_assissment.Worker.ProcessEvent.Reliable.{IsReliable}
use fincart_assissment.Worker.ProcessEvent.Completion.{
  process_event_completes, process_event_buries,
}
use fincart_assissment.Worker.ProcessEvent.Job.{numbered, event_job_processor_ends}
use fincart_assissment.Worker.Classifier.{error, classify_error}
use fincart_assissment.Worker.Classifier.Laws.{
  IsDependencyFailure, IsInvalid, message_of, classify_error_lem,
}
use fincart_assissment.Worker.World.{World}
use fincart_assissment.Worker.Records.{dead_lettered, ProcessedEventRecord}
use fincart_assissment.Worker.Repositories.{
  find_by_idempotency_key, mark_received, mark_processing, upsert_shipment, mark_processed,
  new_record, started, closed_as,
}
use fincart_assissment.Worker.Repositories.Views.{record_of}
use fincart_assissment.Worker.Lifecycle.Invariant.{AllSound}
use fincart_assissment.Worker.ProcessEvent.{
  check_idempotency, on_decision, with_lock, apply_event, get_payload_field, missing, process_event,
  event_job_processor,
}
use fincart_assissment.Worker.ProcessEvent.Outcome.{Ended, Stopped, Completed, Buried}
use fincart_assissment.Worker.ProcessEvent.Ends.{process_event_ends}
use fincart_assissment.Worker.ProcessEvent.Guarantees.{
  Unchanged, process_event-AllSound, process_event_closed, process_event_once,
}
use fincart_assissment.Worker.Interleaving.Steps.{Follows}
use fincart_assissment.Worker.Interleaving.Solo.{process_event-Follows}
use fincart_assissment.Examples.Services.{in_memory}

abbrev pub event : QueueJobPayload
event = record {
  event_id = text "e1";
  event_type = text "moved";
  occurred_at = text "2024-01-01T00:00:00Z";
  source = text "dhl";
  signature_meta = record { algorithm = sha256; timestamp = 1000; signature_header = text "06" };
  idempotency_key = text "k1";
  trace_id = text "r1";
  attempt = 1;
  payload =
      field (text "shipmentId") (str (text "s1"))
        (field (text "status") (str (text "delivered")) end);
  received_at = 1000500;
}

abbrev pub policy : RetryPolicyConfig
policy = record {
  base_ms = whole 1000;
  multiplier = whole 2;
  jitter_percent = whole 20;
  max_attempts = 5;
}

abbrev unused : World in_memory
unused = record {
  processed = λ key. none;
  shipments = λ key. none;
  dead_letters = [];
  dlq = [];
  clock = 1000;
}

abbrev received_record : ProcessedEventRecord
received_record =
    new_record
      (record { idempotency_key = text "k1"; event_id = text "e1"; event_type = text "moved" }) 1

-- A record that was dead-lettered at its first attempt.
abbrev pub dead_record : ProcessedEventRecord
dead_record = closed_as dead_lettered 3 3 (started 2 received_record)

abbrev pub dead_world : World in_memory
dead_world = record unused { processed = λ key. some dead_record }

process_event_ends_example :
    Post
      (λ w' _. Ended in_memory event policy unused w')
      (λ w' e. Stopped in_memory event policy unused w' e)
      (process_event in_memory event policy unused)
process_event_ends_example = process_event_ends in_memory event policy unused

process_event-Follows_example :
    Post
      (λ v _. Follows in_memory event policy unused v)
      (λ v _. Follows in_memory event policy unused v)
      (process_event in_memory event policy unused)
process_event-Follows_example = process_event-Follows in_memory event policy unused

process_event-AllSound_example :
    Post
      (λ w' _. (j : Str) → AllSound 5 (record_of in_memory w' j))
      (λ w' _. (j : Str) → AllSound 5 (record_of in_memory w' j))
      (process_event in_memory event policy unused)
process_event-AllSound_example =
    process_event-AllSound in_memory event policy unused (omega arith) (λ j. tt)

process_event_closed_example :
    Post
      (λ w' _. Unchanged in_memory event policy dead_world w')
      (λ w' _. Unchanged in_memory event policy dead_world w')
      (process_event in_memory event policy dead_world)
process_event_closed_example =
    process_event_closed in_memory event policy dead_world dead_record refl refl

-- The world after the event was processed.
abbrev after : World in_memory
after = (process_event in_memory event policy unused).0

completes : process_event in_memory event policy unused ≡ (after, ok tt)
unfolding process_event check_idempotency find_by_idempotency_key on_decision mark_received
    mark_processing with_lock str_eq apply_event get_payload_field get_field is_blank
    upsert_shipment mark_processed
completes = refl

process_event_once_example :
    Post
      (λ w' _. Unchanged in_memory event policy after w')
      (λ w' _. Unchanged in_memory event policy after w')
      (process_event in_memory event policy after)
process_event_once_example =
    process_event_once in_memory event policy unused after completes event policy refl

classify_error_lem_example :
    (((classify_error (error (text "boom"))).code ≡ transient_dependency_failure)
      ↔ IsDependencyFailure (error (text "boom")))
    × (((classify_error (error (text "boom"))).code ≡ permanent_failure)
        ↔ ((¬ IsDependencyFailure (error (text "boom"))) × IsInvalid (error (text "boom"))))
    × (((classify_error (error (text "boom"))).classification ≡ permanent)
        ↔ ((¬ IsDependencyFailure (error (text "boom"))) × IsInvalid (error (text "boom"))))
    × ((classify_error (error (text "boom"))).message ≡ message_of (error (text "boom")))
classify_error_lem_example = classify_error_lem (error (text "boom"))

event_job_processor_ends_example :
    Post
      (λ w' _. Ended in_memory (numbered in_memory policy event 0 unused) policy unused w')
      (λ w' e. Stopped in_memory (numbered in_memory policy event 0 unused) policy unused w' e)
      (event_job_processor in_memory policy event 0 unused)
event_job_processor_ends_example = event_job_processor_ends in_memory policy event 0 unused

answers : IsReliable in_memory
answers = record {
  records = record {
    find_one = λ key s. tt;
    update = λ key filter change s. tt;
    upsert = λ key change new s. tt;
  };
  upsert_one = λ key change new s. tt;
}

has_shipment_id : get_payload_field event.payload (text "shipmentId") ≡ ok (text "s1")
unfolding get_payload_field get_field str_eq is_blank
has_shipment_id = refl

has_status : get_payload_field event.payload (text "status") ≡ ok (text "delivered")
unfolding get_payload_field get_field str_eq is_blank
has_status = refl

process_event_completes_example :
    Post
      (λ w' _. Completed in_memory event policy unused w')
      (λ _ _. ⊥)
      (process_event in_memory event policy unused)
process_event_completes_example =
    process_event_completes in_memory answers event policy unused refl {shipment_id = text "s1"}
      {current_state = text "delivered"} has_shipment_id has_status

abbrev poison : QueueJobPayload
poison = record event { payload = end }

lacks_shipment_id :
    get_payload_field poison.payload (text "shipmentId") ≡ throw (missing (text "shipmentId"))
unfolding get_payload_field get_field
lacks_shipment_id = refl

process_event_buries_example :
    Post
      (λ w' _. Buried in_memory poison policy unused w')
      (λ _ _. ⊥)
      (process_event in_memory poison policy unused)
process_event_buries_example =
    process_event_buries in_memory answers poison policy unused refl
      (record { add_letter = λ d s. tt; add_job = λ d s. tt }) lacks_shipment_id
