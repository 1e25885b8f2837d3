-- ===== src/Examples/LoadTests.antt =====
-- scripts/load-test/ on a test of two events.
use fincart_assissment.Common.{
  here, ◌+◌, ◌*◌, ◌/◌, ◌-◌, ◌≤◌, ◌<◌, ◌≡◌, ◌↔◌, ◌⊎◌, refl, true, false, none, some, [], ◌∷◌, ◌++◌,
  List, length, All, take, total, min, ltb, SameItems, at_least_one, arith,
}
use fincart_assissment.Common.Text.{text}
use fincart_assissment.Effects.{ok}
use fincart_assissment.Signing.{SignedEventPayload, Drawn}
use fincart_assissment.LoadTest.Config.{
  LoadTestConfig, Environment, load_config, configured, parse_number,
}
use fincart_assissment.Common.Text.{is_blank, is_empty, trim, trim_start, is_space}
use fincart_assissment.Common.Parse.{parse_int, parse_digits, digits_from, infinity}
use fincart_assissment.LoadTest.Events.{PreparedEvent, Draws, build_events}
use fincart_assissment.LoadTest.Events.Copies.{Original, Copy}
use fincart_assissment.LoadTest.Events.Mixture.{build_events_lem}
use fincart_assissment.LoadTest.Thresholds.{given, Mongo, AssertionResult, assert_thresholds}
use fincart_assissment.LoadTest.Thresholds.Verdict.{IsGood, assert_thresholds_iff}
use fincart_assissment.Worker.Records.{ProcessedEventRecord, processed}
use fincart_assissment.Examples.Services.{short_hash}
use fincart_assissment.LoadTest.Pool.{
  Pool, awaiting, ended, start_pool, resumed, PoolStep, resolve, PoolRuns, begin, step,
}
use fincart_assissment.LoadTest.Pool.Consumers.{at_work}
use fincart_assissment.LoadTest.Pool.Invariant.{settled_items, written}
use fincart_assissment.LoadTest.Pool.Completion.{PoolRuns-once, PoolRuns-end}
use fincart_assissment.LoadTest.Report.{LoadTestRawResults, generate_report}
use fincart_assissment.LoadTest.Report.Percentiles.{IsPercentile, generate_report-percentiles}
use fincart_assissment.LoadTest.Run.{
  Fetched, response, Tally, duplicate, new_tally, count_answer, send_event, raw_results,
}
use fincart_assissment.LoadTest.Run.Counting.{load_test-counts}

abbrev signed : SignedEventPayload
signed = record {
  body = text "{}";
  x_signature = text "00";
  x_signature_timestamp = text "1000";
  x_signature_algorithm = text "hmac-sha256";
  x_request_id = text "req_1";
}

abbrev first_event : PreparedEvent
first_event = record { payload = signed; idempotency_key = text "a"; is_duplicate = false }

abbrev repeated : PreparedEvent
repeated = record first_event { is_duplicate = true }

abbrev events : List PreparedEvent
events = first_event ∷ repeated ∷ []

abbrev EventPool : Type 0
EventPool = Pool PreparedEvent Fetched Tally

abbrev at_start : EventPool
at_start = start_pool events 2 (new_tally events)

-- The first event is accepted in 12 ms.
abbrev after_one : EventPool
after_one =
    resumed events first_event (response 202 12)
      (count_answer first_event (response 202 12) (new_tally events))
      (ended ∷ awaiting repeated ∷ []) at_start

one_answer : PoolRuns send_event events 2 (new_tally events) 1 after_one
unfolding start_pool send_event
one_answer = step begin (resolve first_event (response 202 12) refl (here _))

PoolRuns-once_example :
    (after_one.started ≡ take after_one.cursor events)
    × SameItems
        (settled_items send_event events after_one ++ at_work after_one.consumers)
        after_one.started
    × (length (at_work after_one.consumers) ≤ at_least_one 2)
    × (after_one.shared ≡ written send_event events after_one.settled (new_tally events))
PoolRuns-once_example = PoolRuns-once send_event events one_answer

PoolRuns-end_example :
    (1 ≤ length events)
    × (((q : EventPool) × PoolStep send_event events after_one q)
        ⊎ ((after_one.started ≡ events)
            × SameItems (settled_items send_event events after_one) events
            × (1 ≡ length events)))
PoolRuns-end_example = PoolRuns-end send_event events one_answer (tt, (tt, tt)) (response 202 7)

abbrev config : LoadTestConfig
config = record {
  target_url = text "http://localhost:3000/v1/events/courier";
  concurrency = 2;
  total_requests = 2;
  duplicate_percent = 50;
  signing_secret = text "secret";
}

abbrev pub results : LoadTestRawResults
results = raw_results (text "2026-01-01T00:00:00.000Z") config after_one.shared

load_test-counts_example :
    (results.counts.total_sent ≡ 1)
    × (length results.latencies_ms ≡ 1)
    × (results.counts.accepted202 + results.counts.bad_request400 + results.counts.unauthorized401
          + results.counts.service_unavailable503 + results.counts.network_errors
        ≤ 1)
    × (results.duplicate_outcomes.duplicate_accepted + results.duplicate_outcomes.duplicate_rejected
        ≤ total duplicate events)
    × ((generate_report results).success_criteria.sc003.passed ≡ ltb 0 (total duplicate events))
    × (((q : EventPool) × PoolStep send_event events after_one q) ⊎ (1 ≡ length events))
load_test-counts_example =
    load_test-counts config (text "2026-01-01T00:00:00.000Z") events 2 one_answer (response 202 7)

one_latency : 0 < length results.latencies_ms
unfolding raw_results new_tally count_answer
one_latency = omega arith

generate_report-percentiles_example :
    IsPercentile 50 results.latencies_ms (generate_report results).latency.p50
    × IsPercentile 95 results.latencies_ms (generate_report results).latency.p95
    × IsPercentile 99 results.latencies_ms (generate_report results).latency.p99
    × ((generate_report results).latency.min ≤ (generate_report results).latency.p50)
    × ((generate_report results).latency.p50 ≤ (generate_report results).latency.p95)
    × ((generate_report results).latency.p95 ≤ (generate_report results).latency.p99)
    × ((generate_report results).latency.p99 ≤ (generate_report results).latency.max)
generate_report-percentiles_example = generate_report-percentiles results one_latency

abbrev variables : Environment
variables = record {
  signing_secret = some (text "secret");
  target_url = none;
  concurrency = some (text "2");
  total_requests = some (text "2");
  duplicate_percent = some (text "50");
}

loaded : load_config variables ≡ some config
unfolding load_config configured parse_number is_blank is_empty trim trim_start is_space parse_int
    parse_digits digits_from infinity
loaded = refl

abbrev drawn : Drawn
drawn = record {
  event_uuid = text "e";
  shipment_uuid = text "s";
  order_uuid = text "o";
  request_uuid = text "r";
  now = 1000;
  occurred_at = text "2026-01-01T00:00:00.000Z";
}

abbrev draws : Draws
draws = record {
  original = λ i. drawn;
  duplicate = λ i. drawn;
  random = λ i. record { top = 1; bottom = 2 };
}

build_events_lem_example :
    (firsts : List PreparedEvent) × (copies : List PreparedEvent) × (rest : List PreparedEvent)
    × ((build_events short_hash draws config ≡ some (firsts ++ (copies ++ rest)))
        × (length (firsts ++ (copies ++ rest)) ≡ 2)
        × (length firsts ≡ at_least_one (2 / 2))
        × (length copies ≡ min (2 * 50 / 100) (2 - at_least_one (2 / 2)))
        × All Original firsts
        × All (Copy firsts) copies
        × All Original rest)
build_events_lem_example =
    build_events_lem short_hash draws variables config loaded (λ i. omega arith)

abbrev pub tracked_record : ProcessedEventRecord
tracked_record = record {
  idempotency_key = text "a";
  event_id = text "evt_1";
  event_type = text "shipment.status.updated";
  status = processed;
  attempt_count = 1;
  attempt_history = [];
  first_seen_at = 1000;
  updated_at = 1010;
  last_error_code = none;
  last_error_message = none;
  expires_at = none;
}

abbrev pub mongo : Mongo
mongo = record {
  made = true;
  connects = true;
  documents = λ q. some (tracked_record ∷ []);
  closes = true;
}

pub is_named : given (some (text "mongodb://db")) ≡ true
unfolding is_empty
is_named = refl

pub is_named' : given (some (text "gateway")) ≡ true
unfolding is_empty
is_named' = refl

assert_thresholds_iff_example :
    (r : AssertionResult) × ((assert_thresholds
          (generate_report results)
          (some (text "mongodb://db"))
          (some (text "gateway"))
          mongo
        ≡ ok r)
      × ((r.all_passed ≡ true) ↔ IsGood (generate_report results) (tracked_record ∷ [])))
assert_thresholds_iff_example =
    assert_thresholds_iff (generate_report results) (some (text "mongodb://db"))
      (some (text "gateway")) mongo (tracked_record ∷ []) is_named is_named' refl refl refl
      (λ q. refl)
