-- ===== src/Replay.antt =====
-- scripts/dlq/replay-dlq.ts (parseLimit, run): dead letters go back into the main queue. The collection
-- of dead letters is seen through its documents, and given by what its operations do to them.
pub mod Order
pub mod Environment
pub mod Script
pub mod Delivery
use fincart_assissment.Common.{
  ℕ, zero, suc, ◌+◌, ◌/◌, ◌≤◌, ◌≡◌, ◌⊎◌, Bool, true, false, Option, none, some, List, [], ◌∷◌, ◌++◌,
  map, length, All, ltb, ◌==◌, if◌then◌else◌, min, total, SameItems,
}
use fincart_assissment.Common.Text.{Str, text, str_eq}
use fincart_assissment.Common.Parse.{ℤ, pos, negsuc, parse_int, infinity, decimal}
use fincart_assissment.Contracts.{Value, null, num, str, obj, Fields, end, field, get_field}
use fincart_assissment.Effects.{Reply, ok, throw, Action, return, ◌>>=◌, ◌>>◌}
use fincart_assissment.Effects.Post.{Post}
use fincart_assissment.Services.{Journal}
use fincart_assissment.Worker.Records.{replayed, is_pending, DeadLetterEventRecord}

-- `Number.isFinite(parsed) && parsed > 0`, or 10.
abbrev limit_of : Option ℤ → ℕ
limit_of (some (pos (suc n))) = if ltb (suc n) infinity then suc n else 10
limit_of (some (pos zero)) = 10
limit_of (some (negsuc n)) = 10
limit_of none = 10

-- `argv[index + 1] ?? ''`.
abbrev first_or_empty : List Str → Str
first_or_empty [] = []
first_or_empty (arg ∷ args) = arg

unfoldable pub parse_limit : List Str → ℕ
unfolding str_eq parse_int infinity
parse_limit [] = 10
parse_limit (arg ∷ argv) =
    if str_eq arg (text "--limit")
    then limit_of (parse_int (first_or_empty argv))
    else parse_limit argv

-- A document with its `_id`.
pub record Stored : Type 0 where
  pub id : ℕ
  pub letter : DeadLetterEventRecord

-- The data of a `courier-event` job, as the script makes it.
pub record ReplayJob : Type 0 where
  pub event_id : Str
  pub event_type : Str
  pub occurred_at : Value
  pub source : Value
  pub signature_meta : Value
  pub idempotency_key : Str
  pub trace_id : Str
  pub attempt : ℕ
  pub payload : Fields
  pub received_at : ℕ

-- The results of the three calls of the clock: ISO texts, milliseconds.
pub record Times : Type 0 where
  pub occurred_at : Str
  pub signed_at : ℕ
  pub received_at : ℕ

-- `value ?? fallback`.
abbrev pub value_or : Option Value → Value → Value
value_or none fallback = fallback
value_or (some null) fallback = fallback
value_or (some v) fallback = v

abbrev default_meta : ℕ → Value
default_meta now = obj (
    field (text "algorithm") (str (text "sha256")) (
      field (text "timestamp") (num (decimal (now / 1000)))
        (field (text "signatureHeader") (str (text "replayed")) end)))

-- Every document has a snapshot and a trace id, so the fallbacks for them are left out.
unfoldable pub replay_job : DeadLetterEventRecord → Times → ReplayJob
replay_job letter times =
    let snapshot = letter.payload_snapshot in
    record {
      event_id = letter.event_id;
      event_type = letter.event_type;
      occurred_at = value_or (get_field snapshot (text "occurredAt")) (str times.occurred_at);
      source = value_or (get_field snapshot (text "source")) (str (text "dlq-replay"));
      signature_meta =
          value_or (get_field snapshot (text "signatureMeta")) (default_meta times.signed_at);
      idempotency_key = letter.idempotency_key;
      trace_id = letter.trace_id;
      attempt = 1;
      payload = snapshot;
      received_at = times.received_at;
    }

-- The documents after `updateOne({ _id }, { $set: { reviewStatus: 'replayed' } })`.
abbrev pub set_replayed : ℕ → Stored → Stored
set_replayed id d =
    if d.id == id then record d { letter = record (d.letter) { review_status = replayed } } else d

abbrev pub pending_only : List Stored → List Stored
pending_only [] = []
pending_only (d ∷ ds) =
    let rest = pending_only ds in if is_pending d.letter.review_status then d ∷ rest else rest

abbrev pub OldestFirst : List Stored → Type 0
OldestFirst [] = Unit
OldestFirst (d ∷ ds) = All (λ e. d.letter.created_at ≤ e.letter.created_at) ds × OldestFirst ds

-- The result of `find({ reviewStatus: 'pending' }).sort({ createdAt: 1 }).limit(limit)`.
pub record IsOldest (limit : ℕ) (documents found : List Stored) : Type 0 where
  pub others : List Stored
  pub parts : SameItems (found ++ others) (pending_only documents)
  pub ascending : OldestFirst (found ++ others)
  pub limited : length found ≡ min limit (length (pending_only documents))

pub record Letters (E : Type 0) : Type 1 where
  pub State : Type 0
  pub documents : State → List Stored
  pub find_pending : ℕ → State → State × Reply E (List Stored)
  pub update_replayed : ℕ → State → State × Reply E (Unit {0})
  pub find_pending_reads :
      (limit : ℕ) (s : State)
      → Post
          (λ s' found. (documents s' ≡ documents s) × IsOldest limit (documents s) found)
          (λ s' e. documents s' ≡ documents s)
          (find_pending limit s)
  pub update_replayed_writes :
      (id : ℕ) (s : State)
      → Post
          (λ s' _. documents s' ≡ map (set_replayed id) (documents s))
          (λ s' e.
            (documents s' ≡ documents s) ⊎ (documents s' ≡ map (set_replayed id) (documents s)))
          (update_replayed id s)

pub record Places (E : Type 0) : Type 1 where
  pub dead_letters : Letters E
  pub main_queue : Journal E ReplayJob

pub record ReplayState {E : Type 0} (p : Places E) : Type 0 where
  pub letters : p.dead_letters.State
  pub jobs : p.main_queue.State

module _ {E : Type 0} (p : Places E) (times : ℕ → Times) where
  abbrev on_letters :
      {A : Type 0}
      → (p.dead_letters.State → p.dead_letters.State × Reply E A)
      → Action (ReplayState p) E A
  on_letters op s = let r = op s.letters in (record s { letters = r.0 }, r.1)

  abbrev on_queue :
      {A : Type 0}
      → (p.main_queue.State → p.main_queue.State × Reply E A)
      → Action (ReplayState p) E A
  on_queue op s = let r = op s.jobs in (record s { jobs = r.0 }, r.1)

  -- The `for` loop, from the record of the index `i` on.
  unfoldable pub replay_records : ℕ → List Stored → Action (ReplayState p) E (Unit {0})
  unfolding replay_job
  replay_records i [] = return tt
  replay_records i (d ∷ records) = do
    on_queue (p.main_queue.add (replay_job d.letter (times i)))
    on_letters (p.dead_letters.update_replayed d.id)
    replay_records (suc i) records

  -- The body of the `try`.
  unfoldable pub replay_dead_letters : ℕ → Action (ReplayState p) E (Unit {0})
  unfolding replay_records
  replay_dead_letters limit = do
    records ← on_letters (p.dead_letters.find_pending limit)
    replay_records 0 records
