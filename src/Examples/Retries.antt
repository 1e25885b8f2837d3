-- ===== src/Examples/Retries.antt =====
-- gateway-worker/src/processors/process-event.ts when the shipments cannot be written.
use fincart_assissment.Common.{◌⊎◌, refl, none, [], arith}
use fincart_assissment.Common.Text.{text}
use fincart_assissment.Effects.Post.{Post}
use fincart_assissment.Worker.Classifier.{error}
use fincart_assissment.Worker.World.{Platform, World}
use fincart_assissment.Worker.Repositories.Views.{record_of}
use fincart_assissment.Worker.ProcessEvent.{process_event}
use fincart_assissment.Worker.ProcessEvent.Outcome.{Completed, Buried, Retried}
use fincart_assissment.Worker.ProcessEvent.Reliable.{AnswersRecords}
use fincart_assissment.Worker.ProcessEvent.Settling.{process_event_settles}
use fincart_assissment.Worker.ProcessEvent.Deliveries.{Final, deliver, deliver_ends}
use fincart_assissment.Examples.Services.{memory, unavailable, log, ticking}
use fincart_assissment.Examples.Processing.{event, policy}

-- MongoDB answers, but for the shipments: the first run fails, the fifth gives up.
abbrev no_shipments : Platform
no_shipments = record {
  processed_events = memory;
  active_shipments = unavailable (error (text "ECONNREFUSED"));
  dead_letter_events = log;
  dlq_queue = log;
  host = ticking;
}

abbrev without_shipments : World no_shipments
without_shipments = record {
  processed = λ key. none;
  shipments = λ key. none;
  dead_letters = [];
  dlq = [];
  clock = 1000;
}

records_answer : AnswersRecords no_shipments
records_answer = record {
  find_one = λ key s. tt;
  update = λ key filter change s. tt;
  upsert = λ key change new s. tt;
}

process_event_settles_example :
    Post
      (λ w' _.
        Completed no_shipments event policy without_shipments w'
        ⊎ Buried no_shipments event policy without_shipments w')
      (λ w' e. Retried no_shipments event policy without_shipments w' e)
      (process_event no_shipments event policy without_shipments)
process_event_settles_example =
    process_event_settles no_shipments records_answer
      (record { add_letter = λ d s. tt; add_job = λ d s. tt }) event policy without_shipments refl

deliver_ends_example :
    Post
      (λ w' _. Final (record_of no_shipments w' event.idempotency_key))
      (λ _ _. ⊥)
      (deliver no_shipments policy event 4 0 without_shipments)
deliver_ends_example =
    deliver_ends no_shipments policy event records_answer
      (record { add_letter = λ d s. tt; add_job = λ d s. tt }) 4 0 without_shipments refl
      (omega arith)
