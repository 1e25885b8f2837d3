-- ===== src/Worker/Interleaving.antt =====
-- Several workers on events with one idempotency key
-- (gateway-worker/src/processors/process-event.ts). MongoDB makes each operation on a document at
-- once, so their runs interleave by whole operations on the record of the key. A worker may stop at
-- any point, and an operation that throws may have been made all the same.
pub mod Holders
pub mod Exclusion
pub mod Steps
pub mod Solo
use fincart_assissment.Common.{
  ℕ, ◌+◌, ◌≡◌, Bool, true, false, Option, none, some, List, [], ◌∷◌, ◌++◌,
}
use fincart_assissment.Common.Text.{Str}
use fincart_assissment.Contracts.{ErrorCode, ErrorClassification}
use fincart_assissment.Services.{updated, found, upserted}
use fincart_assissment.Worker.Retry.{should_retry}
use fincart_assissment.Worker.Records.{ProcessedEventRecord, processed, dead_lettered}
use fincart_assissment.Worker.Repositories.{
  Received, new_record, is_open, started, closed_as, failed_with,
}
use fincart_assissment.Worker.ProcessEvent.{IdempotencyDecision, proceed, skip, decide}

-- How far a run of `processEvent` is: before the gate, past it, past `markReceived`, with the lock
-- of an attempt, in the `catch` clause of an attempt, and with nothing more to do to the record.
pub data Phase : Type 0 where
  begun gated entered done : Phase
  holding failing : (attempt : ℕ) → Phase

-- The phases after `checkIdempotency` and after `markProcessing`.
abbrev pub after_gate : IdempotencyDecision → Phase
after_gate proceed = gated
after_gate (skip reason) = done

abbrev pub after_lock : Option ProcessedEventRecord → Phase
after_lock none = done
after_lock (some d) = holding d.attempt_count

-- One operation of a worker on the record, with the record before and after it.
pub data WorkerStep (max_attempts : ℕ)
    : Phase → Option ProcessedEventRecord → Phase → Option ProcessedEventRecord → Type 0 where
  check :
      (o : Option ProcessedEventRecord) → WorkerStep max_attempts begun o (after_gate (decide o)) o
  receive :
      (o : Option ProcessedEventRecord) (r : Received) (now : ℕ)
      → WorkerStep max_attempts gated o entered (upserted (λ d. d) (new_record r now) o)
  receive_lost :
      (o : Option ProcessedEventRecord) (r : Received) (now : ℕ)
      → WorkerStep max_attempts gated o done (upserted (λ d. d) (new_record r now) o)
  lock :
      (o : Option ProcessedEventRecord) (now : ℕ)
      → WorkerStep max_attempts entered o
          (after_lock (found (λ d. is_open d.status) (started now) o))
          (updated (λ d. is_open d.status) (started now) o)
  lock_lost :
      (o : Option ProcessedEventRecord) (now : ℕ)
      → WorkerStep max_attempts entered o done (updated (λ d. is_open d.status) (started now) o)
  finish :
      (o : Option ProcessedEventRecord) (attempt now later : ℕ)
      → WorkerStep max_attempts
          (holding attempt)
          o
          done
          (updated (λ _. true) (closed_as processed now later) o)
  finish_lost :
      (o : Option ProcessedEventRecord) (attempt now later : ℕ)
      → WorkerStep max_attempts
          (holding attempt)
          o
          (failing attempt)
          (updated (λ _. true) (closed_as processed now later) o)
  catch_error :
      (o : Option ProcessedEventRecord) (attempt : ℕ)
      → WorkerStep max_attempts (holding attempt) o (failing attempt) o
  retry :
      (o : Option ProcessedEventRecord) (attempt : ℕ) (classification : ErrorClassification)
      (code : ErrorCode) (message : Str) (now : ℕ)
      → should_retry attempt max_attempts classification ≡ true
      → WorkerStep max_attempts
          (failing attempt)
          o
          done
          (updated (λ _. true) (failed_with code message attempt now) o)
  bury :
      (o : Option ProcessedEventRecord) (attempt : ℕ) (classification : ErrorClassification)
      (now later : ℕ)
      → should_retry attempt max_attempts classification ≡ false
      → WorkerStep max_attempts
          (failing attempt)
          o
          done
          (updated (λ _. true) (closed_as dead_lettered now later) o)
  stop : (phase : Phase) (o : Option ProcessedEventRecord) → WorkerStep max_attempts phase o done o

-- The record of the key, and the workers that were given an event with it.
pub record System : Type 0 where
  pub document : Option ProcessedEventRecord
  pub workers : List Phase

pub data Step (max_attempts : ℕ) : System → System → Type 0 where
  arrive :
      (o : Option ProcessedEventRecord) (ws : List Phase)
      → Step max_attempts
          (record { document = o; workers = ws })
          (record { document = o; workers = begun ∷ ws })
  work :
      {o o' : Option ProcessedEventRecord} {phase phase' : Phase} (before later : List Phase)
      → WorkerStep max_attempts phase o phase' o'
      → Step max_attempts
          (record { document = o; workers = before ++ phase ∷ later })
          (record { document = o'; workers = before ++ phase' ∷ later })

pub data Runs (max_attempts : ℕ) (s : System) : System → Type 0 where
  here : Runs max_attempts s s
  next : {t u : System} → Runs max_attempts s t → Step max_attempts t u → Runs max_attempts s u

-- 1 for a worker that has the lock, in or after the `try`, and how many have it.
abbrev pub holds_lock : Phase → ℕ
holds_lock (holding attempt) = 1
holds_lock (failing attempt) = 1
holds_lock _ = 0

abbrev pub holders : List Phase → ℕ
holders [] = 0
holders (phase ∷ ws) = holds_lock phase + holders ws
