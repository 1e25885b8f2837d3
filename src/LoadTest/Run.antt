-- ===== src/LoadTest/Run.antt =====
-- scripts/load-test/run-load-test.ts (run): the events are sent by the pool, and each answer counted.
-- `Date.now()` and `fetch` are what a worker awaits.
pub mod Counting
use fincart_assissment.Common.{
  ℕ, zero, suc, ◌+◌, Bool, true, false, List, [], ◌∷◌, ◌++◌, ◌==◌, if◌then◌else◌, total,
}
use fincart_assissment.Common.Text.{Str}
use fincart_assissment.Effects.{Action, return}
use fincart_assissment.LoadTest.Config.{LoadTestConfig}
use fincart_assissment.LoadTest.Events.{PreparedEvent}
use fincart_assissment.LoadTest.Report.{
  Counts, DuplicateOutcomes, RetryOutcomes, ReportConfig, LoadTestRawResults,
}

-- `fetch` resolves with a status, or rejects; and `Date.now() - startedAt`.
pub data Fetched : Type 0 where
  response : (status : ℕ) (latency : ℕ) → Fetched
  rejected : (latency : ℕ) → Fetched

-- The objects of `run` that the workers write to.
pub record Tally : Type 0 where
  pub counts : Counts
  pub duplicate_outcomes : DuplicateOutcomes
  pub latencies_ms : List ℕ

-- `events.filter((event) => event.isDuplicate).length`.
abbrev pub duplicate : PreparedEvent → ℕ
duplicate event = if event.is_duplicate then 1 else 0

unfoldable pub new_tally : List PreparedEvent → Tally
new_tally events = record {
  counts = record {
    total_sent = 0;
    accepted202 = 0;
    bad_request400 = 0;
    unauthorized401 = 0;
    service_unavailable503 = 0;
    network_errors = 0;
    duplicates_injected = total duplicate events;
  };
  duplicate_outcomes = record {
    duplicate_attempts = total duplicate events;
    duplicate_accepted = 0;
    duplicate_rejected = 0;
  };
  latencies_ms = [];
}

-- `counts.totalSent += 1` and `latenciesMs.push(latency)`.
abbrev sent : ℕ → Tally → Tally
sent latency t = record t {
  counts = record (t.counts) { total_sent = t.counts.total_sent + 1 };
  latencies_ms = t.latencies_ms ++ latency ∷ [];
}

abbrev accepted : PreparedEvent → Tally → Tally
accepted event t = record t {
  counts = record (t.counts) { accepted202 = t.counts.accepted202 + 1 };
  duplicate_outcomes = record (t.duplicate_outcomes) {
    duplicate_accepted = t.duplicate_outcomes.duplicate_accepted + duplicate event;
  };
}

abbrev refused : PreparedEvent → Tally → Tally
refused event t = record t {
  duplicate_outcomes = record (t.duplicate_outcomes) {
    duplicate_rejected = t.duplicate_outcomes.duplicate_rejected + duplicate event;
  };
}

abbrev bad_request : PreparedEvent → Tally → Tally
bad_request event t =
    refused event
      (record t { counts = record (t.counts) { bad_request400 = t.counts.bad_request400 + 1 } })

abbrev unauthorized : PreparedEvent → Tally → Tally
unauthorized event t =
    refused event
      (record t { counts = record (t.counts) { unauthorized401 = t.counts.unauthorized401 + 1 } })

abbrev service_unavailable : Tally → Tally
service_unavailable t = record t {
  counts = record (t.counts) { service_unavailable503 = t.counts.service_unavailable503 + 1 };
}

abbrev network_error : Tally → Tally
network_error t = record t {
  counts = record (t.counts) { network_errors = t.counts.network_errors + 1 };
}

unfoldable pub count_answer : PreparedEvent → Fetched → Tally → Tally
count_answer event (response status latency) t =
    if status == 202
    then accepted event (sent latency t)
    else if status == 400
    then bad_request event (sent latency t)
    else if status == 401
    then unauthorized event (sent latency t)
    else if status == 503
    then service_unavailable (sent latency t)
    else sent latency t
count_answer event (rejected latency) t = sent latency (network_error t)

-- The worker that `run` gives to the pool: its `catch` clause catches all that `fetch` throws.
unfoldable pub send_event : PreparedEvent → Fetched → Action Tally ⊥ (Unit {0})
unfolding count_answer
send_event event fetched t = return tt (count_answer event fetched t)

unfoldable pub raw_results : Str → LoadTestConfig → Tally → LoadTestRawResults
raw_results timestamp config t = record {
  timestamp = timestamp;
  config = record {
    target_url = config.target_url;
    concurrency = config.concurrency;
    total_requests = config.total_requests;
    duplicate_percent = config.duplicate_percent;
  };
  counts = t.counts;
  latencies_ms = t.latencies_ms;
  duplicate_outcomes = t.duplicate_outcomes;
  retry_outcomes = record { total_retry_eligible = 0; recovered = 0 };
}
