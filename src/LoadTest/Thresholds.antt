-- ===== src/LoadTest/Thresholds.antt =====
-- scripts/load-test/assert-thresholds.ts: the verdict on a load test, from its report and the records
-- that the worker left in MongoDB.
pub mod Verdict
use fincart_assissment.Common.{
  ℕ, zero, suc, ◌+◌, Bool, true, false, ◌&&◌, ◌||◌, Option, none, some, List, [], ◌∷◌, ◌++◌, length,
  ltb, leb, ◌==◌, if◌then◌else◌, total,
}
use fincart_assissment.Common.Text.{Str, text, str_eq, is_empty}
use fincart_assissment.Common.Parse.{decimal}
use fincart_assissment.Effects.{Reply, ok, throw}
use fincart_assissment.Worker.Records.{
  ProcessedStatus, processed, dead_lettered, ProcessedEventRecord,
}
use fincart_assissment.LoadTest.Report.{CriterionResult, Criteria, LoadTestReport, reaches}

pub record AssertionResult : Type 0 where
  pub all_passed : Bool
  pub results : Criteria

pub record MongoStats : Type 0 where
  pub total_tracked : ℕ
  pub terminal_tracked : ℕ
  pub duplicate_idempotency_keys : ℕ
  pub retry_eligible : ℕ
  pub recovered : ℕ

-- The five queries on `processed_events`. The worker may still write between them.
pub data Query : Type 0 where
  tracked terminal duplicates eligible recovered : Query

-- MongoDB as the script meets it: whether `new MongoClient(uri)`, `connect()` and `close()` work, and
-- the documents that a query finds in the collection, `none` if it fails.
pub record Mongo : Type 0 where
  pub made : Bool
  pub connects : Bool
  pub documents : Query → Option (List ProcessedEventRecord)
  pub closes : Bool

-- `countDocuments(filter)`.
abbrev pub counted : (ProcessedEventRecord → Bool) → List ProcessedEventRecord → ℕ
counted filter = total (λ d. if filter d then 1 else 0)

abbrev pub is_terminal : ProcessedStatus → Bool
is_terminal processed = true
is_terminal dead_lettered = true
is_terminal _ = false

abbrev pub is_processed : ProcessedStatus → Bool
is_processed processed = true
is_processed _ = false

abbrev pub was_retried : ProcessedEventRecord → Bool
was_retried d = ltb 1 d.attempt_count

abbrev pub has_key : Str → ProcessedEventRecord → Bool
has_key key d = str_eq d.idempotency_key key

-- `$group` by the key, `$match` of the groups of more than one, `$count`: the keys that occur again
-- after an occurrence, each counted once, at its last occurrence but one.
unfoldable pub duplicate_keys : List ProcessedEventRecord → ℕ
unfolding str_eq
duplicate_keys [] = 0
duplicate_keys (d ∷ ds) =
    (if counted (has_key d.idempotency_key) ds == 1 then 1 else 0) + duplicate_keys ds

-- What follows a query, and the `catch` clause when it fails.
abbrev with_documents :
    Option (List ProcessedEventRecord)
    → (List ProcessedEventRecord → Option MongoStats)
    → Option MongoStats
with_documents none f = none
with_documents (some ds) f = f ds

unfoldable pub read_stats : (Query → Option (List ProcessedEventRecord)) → Option MongoStats
unfolding duplicate_keys
read_stats documents = with_documents (documents tracked) λ all.
    with_documents (documents terminal) λ ended. with_documents (documents duplicates) λ keyed.
      with_documents (documents eligible) λ retried. with_documents (documents recovered) λ done.
        some (record {
          total_tracked = length all;
          terminal_tracked = counted (λ d. is_terminal d.status) ended;
          duplicate_idempotency_keys = duplicate_keys keyed;
          retry_eligible = counted was_retried retried;
          recovered = counted (λ d. is_processed d.status && was_retried d) done;
        })

-- The `finally` clause: an error of `close()` takes the place of the result.
abbrev finally_close : Bool → Option MongoStats → Reply (Unit {0}) (Option MongoStats)
finally_close true result = ok result
finally_close false result = throw tt

unfoldable pub try_read_mongo_stats : Mongo → Reply (Unit {0}) (Option MongoStats)
unfolding read_stats
try_read_mongo_stats mongo =
    if mongo.made
    then finally_close mongo.closes (if mongo.connects then read_stats mongo.documents else none)
    else ok none

abbrev skipped : CriterionResult
skipped = record { passed = false; detail = text "Requires MongoDB check — skipped" }

unfoldable pub accept_criterion : LoadTestReport → CriterionResult
accept_criterion report = record {
  passed =
      ltb 0 report.summary.total_sent
      && reaches 99 report.summary.accepted report.summary.total_sent
      && leb report.latency.p95 2000;
  detail =
      text "accepted="
      ++ decimal report.summary.accepted
      ++ text "/"
      ++ decimal report.summary.total_sent
      ++ text ", p95="
      ++ decimal report.latency.p95
      ++ text "ms";
}

unfoldable pub terminal_criterion : Option MongoStats → CriterionResult
terminal_criterion none = skipped
terminal_criterion (some stats) = record {
  passed = ltb 0 stats.total_tracked && stats.terminal_tracked == stats.total_tracked;
  detail =
      text "terminalTracked="
      ++ decimal stats.terminal_tracked
      ++ text ", totalTracked="
      ++ decimal stats.total_tracked;
}

unfoldable pub unique_criterion : Option MongoStats → CriterionResult
unique_criterion none = skipped
unique_criterion (some stats) = record {
  passed = stats.duplicate_idempotency_keys == 0;
  detail = text "duplicateIdempotencyKeys=" ++ decimal stats.duplicate_idempotency_keys;
}

unfoldable pub recovery_criterion : Option MongoStats → CriterionResult
recovery_criterion none = skipped
recovery_criterion (some stats) = record {
  passed = stats.retry_eligible == 0 || reaches 95 stats.recovered stats.retry_eligible;
  detail =
      if stats.retry_eligible == 0
      then text "No retry-eligible records"
      else text "recovered=" ++ decimal stats.recovered ++ text "/" ++ decimal stats.retry_eligible;
}

unfoldable pub verdict : LoadTestReport → Option MongoStats → AssertionResult
unfolding accept_criterion terminal_criterion unique_criterion recovery_criterion
verdict report stats =
    let sc001 = accept_criterion report in
    let sc002 = terminal_criterion stats in
    let sc003 = unique_criterion stats in
    let sc004 = recovery_criterion stats in
    record {
      all_passed = sc001.passed && sc002.passed && sc003.passed && sc004.passed;
      results = record { sc001 = sc001; sc002 = sc002; sc003 = sc003; sc004 = sc004 };
    }

-- `mongoUri && mongoDbName`: an absent or an empty text is false.
abbrev pub given : Option Str → Bool
given none = false
given (some s) = if is_empty s then false else true

abbrev judged :
    LoadTestReport → Reply (Unit {0}) (Option MongoStats) → Reply (Unit {0}) AssertionResult
judged report (ok stats) = ok (verdict report stats)
judged report (throw e) = throw e

unfoldable pub assert_thresholds :
    LoadTestReport → Option Str → Option Str → Mongo → Reply (Unit {0}) AssertionResult
unfolding verdict try_read_mongo_stats is_empty
assert_thresholds report mongo_uri mongo_db_name mongo =
    if given mongo_uri && given mongo_db_name
    then judged report (try_read_mongo_stats mongo)
    else ok (verdict report none)
