-- ===== src/Worker/ProcessEvent/Entered.antt =====
-- The record that `markReceived` finds or makes, and what the gate says of it.
use fincart_assissment.Common.{ℕ, ◌≡◌, refl, true, false, Option, none, some}
use fincart_assissment.Services.{updated, found, upserted}
use fincart_assissment.Worker.Records.{
  ProcessedStatus, received, processing, processed, failed, dead_lettered, ProcessedEventRecord,
}
use fincart_assissment.Worker.Repositories.{Received, new_record, is_open, started}
use fincart_assissment.Worker.Lifecycle.{receive, Moves, here, next}
use fincart_assissment.Worker.ProcessEvent.{proceed, skip, SkipReason, decide_status, decide}
use fincart_assissment.Worker.ProcessEvent.Outcome.{entered}

pub open_of_proceed : (s : ProcessedStatus) → decide_status s ≡ proceed → is_open s ≡ true
open_of_proceed received h = refl
open_of_proceed failed h = refl
open_of_proceed processing h = cc
open_of_proceed processed h = cc
open_of_proceed dead_lettered h = cc

pub closed_of_skip :
    (s : ProcessedStatus) (reason : SkipReason) → decide_status s ≡ skip reason → is_open s ≡ false
closed_of_skip received reason h = cc
closed_of_skip failed reason h = cc
closed_of_skip processing reason h = refl
closed_of_skip processed reason h = refl
closed_of_skip dead_lettered reason h = refl

pub entered_open :
    (r : Received) (seen : ℕ) (o : Option ProcessedEventRecord)
    → decide o ≡ proceed
    → is_open (entered r seen o).status ≡ true
entered_open r seen none h = refl
entered_open r seen (some d) h = open_of_proceed d.status h

pub upserted-entered :
    (r : Received) (seen : ℕ) (o : Option ProcessedEventRecord)
    → upserted (λ d. d) (new_record r seen) o ≡ some (entered r seen o)
upserted-entered r seen none = refl
upserted-entered r seen (some d) = refl

pub entered-Moves :
    (max_attempts : ℕ) (r : Received) (seen : ℕ) (o : Option ProcessedEventRecord)
    → Moves max_attempts o (some (entered r seen o))
entered-Moves max_attempts r seen none = next here (receive r seen)
entered-Moves max_attempts r seen (some d) = here

pub skip_existing :
    (o : Option ProcessedEventRecord) (reason : SkipReason)
    → decide o ≡ skip reason
    → (d : ProcessedEventRecord) × (o ≡ some d) × (is_open d.status ≡ false)
skip_existing none reason h = cc
skip_existing (some d) reason h = (d, refl, closed_of_skip d.status reason h)

pub updated_open :
    (o : Option ProcessedEventRecord) (d : ProcessedEventRecord) (t : ℕ)
    → o ≡ some d
    → is_open d.status ≡ true
    → updated (λ r. is_open r.status) (started t) o ≡ some (started t d)
updated_open o d t e h = rw (e, h)

pub found_open :
    (o : Option ProcessedEventRecord) (d : ProcessedEventRecord) (t : ℕ)
    → o ≡ some d
    → is_open d.status ≡ true
    → found (λ r. is_open r.status) (started t) o ≡ some (started t d)
found_open o d t e h = rw (e, h)
