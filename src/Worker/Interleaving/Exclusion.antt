-- ===== src/Worker/Interleaving/Exclusion.antt =====
-- Several workers on one key, and the lock that `markProcessing` takes.
use fincart_assissment.Common.{
  ℕ, ◌+◌, ◌≤◌, ◌<◌, ◌≡◌, refl, sym, ap, ◌∙◌, inl, inr, true, Option, none, some, List, [], ◌∷◌,
  ◌++◌, All, arith, Bool-cases,
}
use mathlib.Core.Option.{some-injective}
use fincart_assissment.Services.{updated, found, upserted}
use fincart_assissment.Worker.Retry.Bounds.{should_retry-lt}
use fincart_assissment.Worker.Records.{ProcessedEventRecord, processed}
use fincart_assissment.Worker.Repositories.{Received, new_record, is_open, started, closed_as}
use fincart_assissment.Worker.Lifecycle.{Move, start, fail}
use fincart_assissment.Worker.Lifecycle.Invariant.{AllSound, Move-AllSound}
use fincart_assissment.Worker.ProcessEvent.{IdempotencyDecision, proceed, skip, decide}
use fincart_assissment.Worker.Interleaving.{
  Phase, begun, gated, entered, done, holding, failing, after_gate, after_lock, WorkerStep, System,
  Step, arrive, work, Runs, here, next, holds_lock, holders, check, receive, receive_lost, lock,
  lock_lost, finish, finish_lost, catch_error, retry, bury, stop,
}
use fincart_assissment.Worker.Interleaving.Holders.{
  HeldBy, holders-append, All-append, All-split, HeldBy-of_free, All-HeldBy-of_free, IsFree,
  free_holders,
}

-- At most one worker has the lock, and it knows the record.
pub record IsExclusive (max_attempts : ℕ) (s : System) : Type 0 where
  pub one : holders s.workers ≤ 1
  pub known : All (HeldBy s.document) s.workers
  pub sound : AllSound max_attempts s.document

module _ {max_attempts : ℕ} (positive : 0 < max_attempts) (ws : List Phase) where
  -- What is to be kept of a worker's phase and record, beside the other workers `ws`.
  record Kept (phase : Phase) (o : Option ProcessedEventRecord) : Type 0 where
    pub one : holds_lock phase + holders ws ≤ 1
    pub own : HeldBy o phase
    pub others : All (HeldBy o) ws
    pub sound : AllSound max_attempts o

  -- A worker that ends up without the lock, with the record as it was.
  gives_way :
      (phase phase' : Phase) (o : Option ProcessedEventRecord)
      → holds_lock phase' ≡ 0
      → Kept phase o
      → Kept phase' o
  gives_way phase phase' o free k = record {
    one = let x = k.one in omega arith;
    own = HeldBy-of_free o phase' free;
    others = k.others;
    sound = k.sound;
  }

  -- A move of the record while no other worker has the lock.
  moves :
      (phase' : Phase) {o o' : Option ProcessedEventRecord}
      → holders ws ≡ 0
      → HeldBy o' phase'
      → holds_lock phase' ≤ 1
      → AllSound max_attempts o
      → Move max_attempts o o'
      → Kept phase' o'
  moves phase' {o} {o'} alone own small sound m = record {
    one = omega arith;
    own = own;
    others = All-HeldBy-of_free o' ws alone;
    sound = Move-AllSound positive m sound;
  }

  alone_of :
      (phase : Phase) → holds_lock phase ≡ 1 → holds_lock phase + holders ws ≤ 1 → holders ws ≡ 0
  alone_of phase h k = omega arith

  gate_free : (decision : IdempotencyDecision) → holds_lock (after_gate decision) ≡ 0
  gate_free proceed = refl
  gate_free (skip reason) = refl

  receive_keeps :
      (phase' : Phase) (o : Option ProcessedEventRecord) (r : Received) (now : ℕ)
      → holds_lock phase' ≡ 0
      → Kept gated o
      → Kept phase' (upserted (λ d. d) (new_record r now) o)
  receive_keeps phase' (some d) r now free k = gives_way gated phase' (some d) free k
  receive_keeps phase' none r now free k =
      moves phase' (free_holders none ws (λ d e. absurd (cc)) k.others)
        (HeldBy-of_free _ phase' free) (omega arith) k.sound (Move.receive r now)

  is_free : (d : ProcessedEventRecord) → is_open d.status ≡ true → IsFree (some d)
  is_free d h d' e =
      ap (λ (x : ProcessedEventRecord). is_open x.status) (sym (some-injective _ _ e)) ∙ h

  lock_keeps :
      (o : Option ProcessedEventRecord) (now : ℕ)
      → Kept entered o
      → Kept
          (after_lock (found (λ d. is_open d.status) (started now) o))
          (updated (λ d. is_open d.status) (started now) o)
        × Kept done (updated (λ d. is_open d.status) (started now) o)
  lock_keeps none now k = (gives_way entered done none refl k, gives_way entered done none refl k)
  lock_keeps (some d) now k = elim (Bool-cases (is_open d.status)) [
    | inr closed ↦
        rw closed (gives_way entered done (some d) refl k, gives_way entered done (some d) refl k)
    | inl is_opened ↦
        let alone = free_holders (some d) ws (is_free d is_opened) k.others in
        rw is_opened (
          moves (holding (d.attempt_count + 1)) alone (started now d, refl, refl, refl)
              (omega arith) k.sound (start d now is_opened),
          moves done alone tt (omega arith) k.sound (start d now is_opened),
        )
  ]

  step_keeps :
      {phase phase' : Phase} {o o' : Option ProcessedEventRecord}
      → WorkerStep max_attempts phase o phase' o'
      → Kept phase o
      → Kept phase' o'
  step_keeps (check o) k = gives_way begun _ o (gate_free (decide o)) k
  step_keeps (receive o r now) k = receive_keeps entered o r now refl k
  step_keeps (receive_lost o r now) k = receive_keeps done o r now refl k
  step_keeps (lock o now) k = (lock_keeps o now k).0
  step_keeps (lock_lost o now) k = (lock_keeps o now k).1
  step_keeps (finish o n now later) k =
      let (d, e, s, c) = k.own in
      rw e (
        moves done (alone_of (holding n) refl k.one) tt (omega arith) (rw e at k.sound)
          (Move.finish d now later s))
  step_keeps (finish_lost o n now later) k =
      let (d, e, s, c) = k.own in
      rw e (
        moves (failing n) (alone_of (holding n) refl k.one)
          (closed_as processed now later d, refl, inr refl, c) (omega arith) (rw e at k.sound)
          (Move.finish d now later s))
  step_keeps (catch_error o n) k =
      let (d, e, s, c) = k.own in
      record { one = k.one; own = (d, e, inl s, c); others = k.others; sound = k.sound }
  step_keeps (retry o n classification code message now allowed) k =
      let (d, e, held, c) = k.own in
      let below = should_retry-lt n max_attempts classification allowed in
      rw (e, ← c)
        (moves done (alone_of (failing n) refl k.one) tt (omega arith) (rw e at k.sound)
          (fail d code message now held (rw c below)))
  step_keeps (bury o n classification now later given_up) k =
      let (d, e, held, c) = k.own in
      rw e (
        moves done (alone_of (failing n) refl k.one) tt (omega arith) (rw e at k.sound)
          (Move.bury d now later held))
  step_keeps (stop phase o) k = gives_way phase done o refl k

Step-IsExclusive :
    {max_attempts : ℕ} {s t : System}
    → 0 < max_attempts
    → Step max_attempts s t
    → IsExclusive max_attempts s
    → IsExclusive max_attempts t
Step-IsExclusive m (arrive o ws) x = record {
  one = omega (arith, x.one);
  known = (tt, x.known);
  sound = x.sound;
}
Step-IsExclusive m (work {o} {o'} {phase} {phase'} before later step) x =
    let (b, (own, l)) = All-split o before (phase ∷ later) x.known in
    let k = step_keeps m (before ++ later) step (record {
      one =
          omega (arith, x.one, holders-append before (phase ∷ later), holders-append before later);
      own = own;
      others = All-append o before later b l;
      sound = x.sound;
    }) in
    let (b', l') = All-split o' before later k.others in
    record {
      one =
          omega (arith, k.one, holders-append before (phase' ∷ later), holders-append before later);
      known = All-append o' before (phase' ∷ later) b' (k.own, l');
      sound = k.sound;
    }

-- However many workers are given events with one key, however their operations on its record
-- interleave, wherever they stop and whichever acknowledgements are lost: if at least one attempt
-- is allowed and the record was sound at first, then at most one worker has the lock at a time, the
-- record is then not open and counts its attempt, and the record stays sound, so it is never tried
-- more often than the maximum.
pub Runs-IsExclusive :
    {max_attempts : ℕ} {o : Option ProcessedEventRecord} {t : System}
    → 0 < max_attempts
    → AllSound max_attempts o
    → Runs max_attempts (record { document = o; workers = [] }) t
    → IsExclusive max_attempts t
Runs-IsExclusive m sound here = record { one = omega arith; known = tt; sound = sound }
Runs-IsExclusive m sound (next run step) = Step-IsExclusive m step (Runs-IsExclusive m sound run)
