-- ===== src/Worker/Lifecycle.antt =====
-- The life of a record of `processed_events`: the moves that
-- gateway-worker/src/repositories/processed-events.repository.ts makes on it, each with the state
-- in which process-event.ts makes it. `none` is a key that has no record.
pub mod Invariant
use fincart_assissment.Common.{ℕ, ◌<◌, ◌≡◌, ◌⊎◌, true, Option, none, some}
use fincart_assissment.Common.Text.{Str}
use fincart_assissment.Contracts.{ErrorCode}
use fincart_assissment.Worker.Records.{ProcessedEventRecord, processing, processed, dead_lettered}
use fincart_assissment.Worker.Repositories.{
  Received, new_record, is_open, started, closed_as, failed_with,
}

-- The worker that holds the lock of the record is not yet done with it: `processed` is possible
-- when the acknowledgement of that write was lost.
abbrev pub IsHeld : ProcessedEventRecord → Type 0
IsHeld d = (d.status ≡ processing) ⊎ (d.status ≡ processed)

pub data Move (max_attempts : ℕ)
    : Option ProcessedEventRecord → Option ProcessedEventRecord → Type 0 where
  receive : (r : Received) (now : ℕ) → Move max_attempts none (some (new_record r now))
  start :
      (d : ProcessedEventRecord) (now : ℕ)
      → is_open d.status ≡ true
      → Move max_attempts (some d) (some (started now d))
  finish :
      (d : ProcessedEventRecord) (now later : ℕ)
      → d.status ≡ processing
      → Move max_attempts (some d) (some (closed_as processed now later d))
  fail :
      (d : ProcessedEventRecord) (code : ErrorCode) (message : Str) (now : ℕ)
      → IsHeld d
      → d.attempt_count < max_attempts
      → Move max_attempts (some d) (some (failed_with code message d.attempt_count now d))
  bury :
      (d : ProcessedEventRecord) (now later : ℕ)
      → IsHeld d
      → Move max_attempts (some d) (some (closed_as dead_lettered now later d))

pub data Moves (max_attempts : ℕ) (o : Option ProcessedEventRecord)
    : Option ProcessedEventRecord → Type 0 where
  here : Moves max_attempts o o
  next :
      {a b : Option ProcessedEventRecord}
      → Moves max_attempts o a
      → Move max_attempts a b
      → Moves max_attempts o b
