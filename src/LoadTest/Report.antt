-- ===== src/LoadTest/Report.antt =====
-- scripts/load-test/reporter.ts (generateReport): the report of a load test. A quotient of two
-- counts is kept as the fraction that it is. The latencies are nonnegative: the clock is not set
-- back during a test.
pub mod Percentiles
use fincart_assissment.Common.{
  ℕ, zero, suc, ◌+◌, ◌-◌, ◌*◌, ◌/◌, ◌%◌, Bool, true, false, ◌&&◌, ◌||◌, Option, none, some, List,
  [], ◌∷◌, ◌++◌, length, ltb, leb, ◌==◌, if◌then◌else◌, item_at, total, at_least_one, min,
}
use fincart_assissment.Common.Text.{Str, text}
use fincart_assissment.Common.Parse.{decimal}
use fincart_assissment.Worker.Number.{Num, le_num, round}

pub record ReportConfig : Type 0 where
  pub target_url : Str
  pub concurrency : ℕ
  pub total_requests : ℕ
  pub duplicate_percent : ℕ

pub record Counts : Type 0 where
  pub total_sent : ℕ
  pub accepted202 : ℕ
  pub bad_request400 : ℕ
  pub unauthorized401 : ℕ
  pub service_unavailable503 : ℕ
  pub network_errors : ℕ
  pub duplicates_injected : ℕ

pub record DuplicateOutcomes : Type 0 where
  pub duplicate_attempts : ℕ
  pub duplicate_accepted : ℕ
  pub duplicate_rejected : ℕ

pub record RetryOutcomes : Type 0 where
  pub total_retry_eligible : ℕ
  pub recovered : ℕ

pub record LoadTestRawResults : Type 0 where
  pub timestamp : Str
  pub config : ReportConfig
  pub counts : Counts
  pub latencies_ms : List ℕ
  pub duplicate_outcomes : DuplicateOutcomes
  pub retry_outcomes : RetryOutcomes

pub record Summary : Type 0 where
  pub total_sent : ℕ
  pub accepted : ℕ
  pub rejected : ℕ
  pub service_unavailable : ℕ
  pub network_errors : ℕ
  pub duplicates_injected : ℕ
  pub accept_rate : Str

-- `mean` in hundredths, since it is rounded to two digits.
pub record Latency : Type 0 where
  pub min : ℕ
  pub max : ℕ
  pub mean : ℕ
  pub p50 : ℕ
  pub p95 : ℕ
  pub p99 : ℕ

pub record CriterionResult : Type 0 where
  pub passed : Bool
  pub detail : Str

pub record Criteria : Type 0 where
  pub sc001 : CriterionResult
  pub sc002 : CriterionResult
  pub sc003 : CriterionResult
  pub sc004 : CriterionResult

pub record LoadTestReport : Type 0 where
  pub timestamp : Str
  pub config : ReportConfig
  pub summary : Summary
  pub latency : Latency
  pub success_criteria : Criteria

-- `sort((a, b) => a - b)`.
unfoldable pub insert : ℕ → List ℕ → List ℕ
insert x [] = x ∷ []
insert x (y ∷ ys) = elim (leb x y) [ true ↦ x ∷ y ∷ ys | false ↦ y ∷ insert x ys ]

unfoldable pub sort : List ℕ → List ℕ
unfolding insert
sort [] = []
sort (x ∷ xs) = insert x (sort xs)

-- `sorted[index]` where the index is in range, and 0 for no latencies.
abbrev pub at_or_zero : Option ℕ → ℕ
at_or_zero none = 0
at_or_zero (some x) = x

-- `Math.min(length - 1, Math.max(0, Math.ceil((p / 100) * length) - 1))`: a difference of natural
-- numbers is at least 0.
unfoldable pub percentile_index : ℕ → ℕ → ℕ
percentile_index size p = min (size - 1) ((p * size + 99) / 100 - 1)

unfoldable pub percentile : List ℕ → ℕ → ℕ
unfolding percentile_index
percentile sorted p = at_or_zero (item_at (percentile_index (length sorted) p) sorted)

-- `${(value * 100).toFixed(1)}%`.
unfoldable pub format_percent : Num → Str
unfolding decimal round
format_percent value =
    let tenths = round (record { top = value.top * 1000; bottom = value.bottom }) in
    decimal (tenths / 10) ++ text "." ++ decimal (tenths % 10) ++ text "%"

abbrev pub last_or_zero : List ℕ → ℕ
last_or_zero sorted = at_or_zero (item_at (length sorted - 1) sorted)

-- `Number(mean.toFixed(2))` in hundredths.
unfoldable pub mean_hundredths : List ℕ → ℕ
unfolding round
mean_hundredths [] = 0
mean_hundredths (x ∷ xs) =
    round (record { top = total (λ n. n) (x ∷ xs) * 100; bottom = length (x ∷ xs) })

-- `part / whole >= percent / 100`.
abbrev pub reaches : ℕ → ℕ → ℕ → Bool
reaches percent part whole = leb (percent * whole) (part * 100)

unfoldable pub generate_report : LoadTestRawResults → LoadTestReport
unfolding sort percentile format_percent mean_hundredths
generate_report results =
    let counts = results.counts in
    let duplicates = results.duplicate_outcomes in
    let retries = results.retry_outcomes in
    let sorted = sort results.latencies_ms in
    let whole = at_least_one counts.total_sent in
    let rate = format_percent (record { top = counts.accepted202; bottom = whole }) in
    let p95 = percentile sorted 95 in
    record {
      timestamp = results.timestamp;
      config = results.config;
      summary = record {
        total_sent = counts.total_sent;
        accepted = counts.accepted202;
        rejected = counts.bad_request400 + counts.unauthorized401;
        service_unavailable = counts.service_unavailable503;
        network_errors = counts.network_errors;
        duplicates_injected = counts.duplicates_injected;
        accept_rate = rate;
      };
      latency = record {
        min = at_or_zero (item_at 0 sorted);
        max = last_or_zero sorted;
        mean = mean_hundredths sorted;
        p50 = percentile sorted 50;
        p95 = p95;
        p99 = percentile sorted 99;
      };
      success_criteria = record {
        sc001 = record {
          passed = reaches 99 counts.accepted202 whole && leb p95 2000;
          detail = text "acceptRate=" ++ rate ++ text ", p95=" ++ decimal p95 ++ text "ms";
        };
        sc002 = record {
          passed = false;
          detail = text "Requires MongoDB check — pending assertion step";
        };
        sc003 = record {
          passed =
              ltb 0 counts.duplicates_injected
              && leb duplicates.duplicate_accepted duplicates.duplicate_attempts;
          detail =
              text "duplicatesInjected="
              ++ decimal counts.duplicates_injected
              ++ text ", duplicateAccepted="
              ++ decimal duplicates.duplicate_accepted;
        };
        sc004 = record {
          passed =
              retries.total_retry_eligible == 0
              || reaches 95 retries.recovered retries.total_retry_eligible;
          detail =
              if retries.total_retry_eligible == 0
              then text "No retry-eligible failures observed"
              else text "recovered="
                ++ decimal retries.recovered
                ++ text "/"
                ++ decimal retries.total_retry_eligible;
        };
      };
    }
