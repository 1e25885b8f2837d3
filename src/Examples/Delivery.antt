-- ===== src/Examples/Delivery.antt =====
-- The request of the gateway's examples on its way to the shipment.
use fincart_assissment.Common.{◌≡◌, refl, none, []}
use fincart_assissment.Common.Text.{text, str_eq, is_blank}
use fincart_assissment.Contracts.{QueueJobPayload, get_field}
use fincart_assissment.Effects.{ok}
use fincart_assissment.Api.Request.{get_trace_id}
use fincart_assissment.Api.Ingestion.{job_for}
use fincart_assissment.Worker.Number.Double.{whole}
use fincart_assissment.Worker.Retry.{RetryPolicyConfig}
use fincart_assissment.Worker.World.{World}
use fincart_assissment.Worker.ProcessEvent.{get_payload_field}
use fincart_assissment.Worker.ProcessEvent.Reliable.{IsReliable}
use fincart_assissment.Pipeline.{Delivered, ingestion_route-Delivered}
use fincart_assissment.Examples.Services.{in_memory, short_hash, schemas}
use fincart_assissment.Examples.Gateway.{
  payload_fields, request, options, meta, let_through, intake, empty, courier_event, is_let_through,
  is_valid,
}

abbrev pub policy : RetryPolicyConfig
policy = record {
  base_ms = whole 1000;
  multiplier = whole 2;
  jitter_percent = whole 20;
  max_attempts = 5;
}

abbrev pub unused : World in_memory
unused = record {
  processed = λ key. none;
  shipments = λ key. none;
  dead_letters = [];
  dlq = [];
  clock = 1000;
}

pub answers : IsReliable in_memory
answers = record {
  records = record {
    find_one = λ key s. tt;
    update = λ key filter change s. tt;
    upsert = λ key change new s. tt;
  };
  upsert_one = λ key change new s. tt;
}

has_shipment_id : get_payload_field payload_fields (text "shipmentId") ≡ ok (text "s1")
unfolding get_payload_field get_field str_eq is_blank
has_shipment_id = refl

has_status : get_payload_field payload_fields (text "status") ≡ ok (text "moved")
unfolding get_payload_field get_field str_eq is_blank
has_status = refl

abbrev pub job : QueueJobPayload
job = job_for courier_event meta (get_trace_id let_through) 1000500

ingestion_route-Delivered_example :
    (sent : QueueJobPayload) × Delivered intake short_hash options schemas 1000500 1000501 request
      empty in_memory policy 0 unused courier_event sent
ingestion_route-Delivered_example =
    ingestion_route-Delivered intake short_hash options schemas 1000500 1000501 request empty
      in_memory policy 0 unused let_through courier_event is_let_through is_valid (λ waiting q. tt)
      answers refl {shipment_id = text "s1"} {current_state = text "moved"} has_shipment_id
      has_status
