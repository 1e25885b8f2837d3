-- ===== src/Worker/Lifecycle/Invariant.antt =====
-- What holds of every record of `processed_events`, whatever the order of its moves.
use fincart_assissment.Common.{
  ℕ, ◌+◌, ◌≤◌, ◌<◌, ◌≡◌, refl, true, Option, none, some, List, [], ◌∷◌, ◌++◌, length, length-append,
  arith,
}
use fincart_assissment.Worker.Records.{
  ProcessedStatus, received, failed, dead_lettered, DeadLetterAttempt, ProcessedEventRecord,
}
use fincart_assissment.Worker.Repositories.{is_open, attempt_entry}
use fincart_assissment.Worker.Lifecycle.{
  Move, receive, start, finish, fail, bury, Moves, here, next,
}

-- The attempt that is not in the history: one that is running, or was the last.
abbrev pub unrecorded : ProcessedStatus → ℕ
unrecorded received = 0
unrecorded failed = 0
unrecorded _ = 1

-- The attempts of a history are numbered from `n` on.
abbrev pub IsNumbered : ℕ → List DeadLetterAttempt → Type 0
IsNumbered n [] = Unit
IsNumbered n (a ∷ more) = (a.attempt ≡ n) × IsNumbered (n + 1) more

pub record IsSound (max_attempts : ℕ) (d : ProcessedEventRecord) : Type 0 where
  pub accounted : length d.attempt_history + unrecorded d.status ≡ d.attempt_count
  pub bounded : d.attempt_count ≤ max_attempts
  pub left : is_open d.status ≡ true → d.attempt_count < max_attempts
  pub numbered : IsNumbered 1 d.attempt_history

abbrev pub AllSound : ℕ → Option ProcessedEventRecord → Type 0
AllSound max_attempts none = Unit
AllSound max_attempts (some d) = IsSound max_attempts d

IsNumbered-append :
    (n : ℕ) (hs : List DeadLetterAttempt) (a : DeadLetterAttempt)
    → IsNumbered n hs
    → a.attempt ≡ length hs + n
    → IsNumbered n (hs ++ a ∷ [])
IsNumbered-append n [] a h e = (omega arith, tt)
IsNumbered-append n (b ∷ hs) a (h, k) e = (h, IsNumbered-append (n + 1) hs a k (omega arith))

pub Move-AllSound :
    {max_attempts : ℕ} {o o' : Option ProcessedEventRecord}
    → 0 < max_attempts
    → Move max_attempts o o'
    → AllSound max_attempts o
    → AllSound max_attempts o'
Move-AllSound m (receive r now) s = record {
  accounted = refl;
  bounded = omega arith;
  left = λ _. m;
  numbered = tt;
}
Move-AllSound m (start d now h) s = record {
  accounted = ground arith;
  bounded = omega (arith, s.left h);
  left = λ e. cc;
  numbered = s.numbered;
}
Move-AllSound m (finish d now later h) s = record {
  accounted = ground arith;
  bounded = s.bounded;
  left = λ e. cc;
  numbered = s.numbered;
}
Move-AllSound m (fail d code message now h l) s = record {
  accounted = ground (
    arith,
    length-append d.attempt_history (attempt_entry code message d.attempt_count now ∷ []),
  );
  bounded = s.bounded;
  left = λ _. l;
  numbered = IsNumbered-append 1 d.attempt_history _ s.numbered (ground arith);
}
Move-AllSound m (bury d now later h) s = record {
  accounted = ground arith;
  bounded = s.bounded;
  left = λ e. cc;
  numbered = s.numbered;
}

-- Whatever moves a record makes, its attempts are numbered from 1 without gaps in its history,
-- but for one that runs or ended it, and there are never more than the maximum.
pub Moves-AllSound :
    {max_attempts : ℕ} {o o' : Option ProcessedEventRecord}
    → 0 < max_attempts
    → Moves max_attempts o o'
    → AllSound max_attempts o
    → AllSound max_attempts o'
Moves-AllSound m here s = s
Moves-AllSound m (next ms mv) s = Move-AllSound m mv (Moves-AllSound m ms s)

-- Moves follow one another.
pub Moves-trans :
    {max_attempts : ℕ} {o o' o'' : Option ProcessedEventRecord}
    → Moves max_attempts o o'
    → Moves max_attempts o' o''
    → Moves max_attempts o o''
Moves-trans ms here = ms
Moves-trans ms (next ns mv) = next (Moves-trans ms ns) mv

Move-ne_dead :
    {max_attempts : ℕ} {o o' : Option ProcessedEventRecord} (d : ProcessedEventRecord)
    → Move max_attempts o o'
    → o ≡ some d
    → d.status ≡ dead_lettered
    → ⊥
Move-ne_dead d (receive r now) e h = cc
Move-ne_dead d (start x now k) e h = ground arith
Move-ne_dead d (finish x now later k) e h = ground arith
Move-ne_dead d (fail x code message now k l) e h = ground arith
Move-ne_dead d (bury x now later k) e h = ground arith

-- A record that is dead-lettered never changes again.
pub dead_lettered_final :
    {max_attempts : ℕ} {o o' : Option ProcessedEventRecord} (d : ProcessedEventRecord)
    → o ≡ some d
    → d.status ≡ dead_lettered
    → Moves max_attempts o o'
    → o' ≡ some d
dead_lettered_final d e h here = e
dead_lettered_final d e h (next ms mv) = absurd (Move-ne_dead d mv (dead_lettered_final d e h ms) h)
