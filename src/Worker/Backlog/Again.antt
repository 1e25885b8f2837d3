-- ===== src/Worker/Backlog/Again.antt =====
-- Jobs that come again after a backlog was worked off (gateway-worker/src/queue/worker.ts).
use fincart_assissment.Common.{
  ◌≡◌, refl, ◌∙◌, ◌⊎◌, inl, inr, true, Bool-cases, Option, none, some, List, [], ◌∷◌, ◌++◌, All,
}
use mathlib.Core.Path.{subst}
use fincart_assissment.Common.Text.{Str, str_eq}
use fincart_assissment.Common.Text.Laws.{str_eq_refl}
use fincart_assissment.Contracts.{QueueJobPayload}
use fincart_assissment.Effects.Post.{Post}
use fincart_assissment.Worker.Retry.{RetryPolicyConfig}
use fincart_assissment.Worker.World.{Platform, World}
use fincart_assissment.Worker.Repositories.{ShipmentUpdate}
use fincart_assissment.Worker.ProcessEvent.Reliable.{IsReliable, TakesLetters}
use fincart_assissment.Worker.Backlog.{run_backlog, Represents}
use fincart_assissment.Worker.Backlog.Abstract.{Ledger, described, close, enter, book, book_all}
use fincart_assissment.Worker.Backlog.Booking.{run_backlog-book_all}

-- A job of the list has this key.
abbrev pub HasKey : Str → List QueueJobPayload → Type 0
HasKey key [] = ⊥
HasKey key (job ∷ jobs) = (key ≡ job.idempotency_key) ⊎ HasKey key jobs

module _ (key : Str) where
  enter-is_done :
      (o : Option ShipmentUpdate) (l : Ledger) → (enter key o l).is_done ≡ close key l.is_done
  enter-is_done none l = refl
  enter-is_done (some update) l = refl

  close-keeps : (other : Str) (l : Ledger) → l.is_done key ≡ true → close other l.is_done key ≡ true
  close-keeps other l h = elim (Bool-cases (str_eq key other)) [
    | inl same ↦ rw same refl
    | inr different ↦ rw different h
  ]

-- What is done with stays so.
book-keeps :
    (key : Str) (job : QueueJobPayload) (l : Ledger)
    → l.is_done key ≡ true
    → (book job l).is_done key ≡ true
unfolding book
book-keeps key job l h = elim (Bool-cases (l.is_done job.idempotency_key)) [
  | inl done ↦ rw done h
  | inr open_event ↦
      rw (open_event, enter-is_done job.idempotency_key (described job) l)
        (close-keeps key job.idempotency_key l h)
]

book-closes : (job : QueueJobPayload) (l : Ledger) → (book job l).is_done job.idempotency_key ≡ true
unfolding book
book-closes job l = elim (Bool-cases (l.is_done job.idempotency_key)) [
  | inl done ↦ rw done done
  | inr open_event ↦
      rw
        (
          open_event,
          enter-is_done job.idempotency_key (described job) l,
          str_eq_refl job.idempotency_key,
        )
        refl
]

book_all-keeps :
    (key : Str) (jobs : List QueueJobPayload) (l : Ledger)
    → l.is_done key ≡ true
    → (book_all jobs l).is_done key ≡ true
unfolding book_all
book_all-keeps key [] l h = h
book_all-keeps key (job ∷ jobs) l h = book_all-keeps key jobs (book job l) (book-keeps key job l h)

book_all-closes :
    (key : Str) (jobs : List QueueJobPayload) (l : Ledger)
    → HasKey key jobs
    → (book_all jobs l).is_done key ≡ true
unfolding book_all
book_all-closes key [] l h = absurd h
book_all-closes key (job ∷ jobs) l (inl same) =
    rw same (book_all-keeps job.idempotency_key jobs (book job l) (book-closes job l))
book_all-closes key (job ∷ jobs) l (inr h) = book_all-closes key jobs (book job l) h

book_all-append :
    (jobs again : List QueueJobPayload) (l : Ledger)
    → book_all (jobs ++ again) l ≡ book_all again (book_all jobs l)
unfolding book_all
book_all-append [] again l = refl
book_all-append (job ∷ jobs) again l = book_all-append jobs again (book job l)

book_all-done :
    (again : List QueueJobPayload) (l : Ledger)
    → All (λ job. l.is_done job.idempotency_key ≡ true) again
    → book_all again l ≡ l
unfolding book_all book
book_all-done [] l h = refl
book_all-done (job ∷ again) l (done, h) = rw done (book_all-done again l h)

-- All the keys of a list are done with after the list that has them.
all_done :
    (again jobs : List QueueJobPayload) (l : Ledger)
    → All (λ job. HasKey job.idempotency_key jobs) again
    → All (λ job. (book_all jobs l).is_done job.idempotency_key ≡ true) again
all_done [] jobs l h = tt
all_done (job ∷ again) jobs l (first, h) =
    (book_all-closes job.idempotency_key jobs l first, all_done again jobs l h)

-- If MongoDB and the dead-letter queue answer, and jobs come after a backlog whose keys are keys of the
-- backlog, in whatever order, number and content, then they change nothing: all the runs return and the
-- stores are as the ledger has them with the backlog booked.
pub run_backlog-again :
    (p : Platform) (config : RetryPolicyConfig)
    → IsReliable p
    → TakesLetters p
    → (jobs again : List QueueJobPayload) (w : World p) (l : Ledger) → Represents p config w l
    → All (λ job. HasKey job.idempotency_key jobs) again
    → Post
        (λ w' _. Represents p config w' (book_all jobs l))
        (λ _ _. ⊥)
        (run_backlog p config (jobs ++ again) w)
run_backlog-again p config reliable takes jobs again w l h known =
    subst
      (λ m.
        Post (λ w' _. Represents p config w' m) (λ _ _. ⊥) (run_backlog p config (jobs ++ again) w))
      (book_all-append jobs again l
        ∙ book_all-done again (book_all jobs l) (all_done again jobs l known))
      (run_backlog-book_all p config reliable takes (jobs ++ again) w l h)
