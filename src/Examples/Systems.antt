-- ===== src/Examples/Systems.antt =====
-- The gateway and the worker together, on a request that is sent twice.
use fincart_assissment.Common.{◌≡◌, refl, inl, false, none, List, [], ◌∷◌, ◌++◌, map}
use fincart_assissment.Contracts.{QueueJobPayload}
use fincart_assissment.Effects.Post.{Post}
use fincart_assissment.Api.Ingestion.Outcome.{queue_of}
use fincart_assissment.Worker.ProcessEvent.Reliable.{TakesLetters}
use fincart_assissment.Worker.Backlog.{Represents, run_backlog}
use fincart_assissment.Worker.Backlog.Abstract.{Ledger, book_all}
use fincart_assissment.Worker.Backlog.Again.{run_backlog-again}
use fincart_assissment.Pipeline.System.{
  Arrival, acknowledged_by, key_of, jobs_of, run_requests, run_requests-book_all,
}
use fincart_assissment.Examples.Services.{in_memory, short_hash, schemas}
use fincart_assissment.Examples.Gateway.{request, options, intake, empty}
use fincart_assissment.Examples.Delivery.{policy, unused, answers, job}

abbrev blank : Ledger
blank = record { is_done = λ key. false; states = λ id. none; given_up = []; queued = [] }

unused-Represents : Represents in_memory policy unused blank
unused-Represents = record {
  done = λ key. refl;
  states = λ id. refl;
  given_up = refl;
  queued = refl;
}

letters : TakesLetters in_memory
letters = record { add_letter = λ d s. tt; add_job = λ d s. tt }

abbrev arrivals : List Arrival
arrivals =
    record { request = request; guarded_at = 1000500; received_at = 1000501 }
    ∷ record { request = request; guarded_at = 1000700; received_at = 1000701 }
    ∷ []

abbrev accepted_jobs : List QueueJobPayload
accepted_jobs = jobs_of intake short_hash options schemas arrivals

run_requests-book_all_example :
    Post
      (λ s' replies.
        (acknowledged_by replies ≡ map key_of (queue_of intake s'))
        × (queue_of intake s' ≡ accepted_jobs)
        × Post
            (λ w' _. Represents in_memory policy w' (book_all accepted_jobs blank))
            (λ _ _. ⊥)
            (run_backlog in_memory policy (queue_of intake s') unused))
      (λ _ _. ⊥)
      (run_requests intake short_hash options schemas arrivals empty)
run_requests-book_all_example =
    run_requests-book_all intake short_hash options schemas (λ waiting q. tt) in_memory policy
      answers letters arrivals empty unused blank refl unused-Represents

run_backlog-again_example :
    Post
      (λ w' _. Represents in_memory policy w' (book_all (job ∷ []) blank))
      (λ _ _. ⊥)
      (run_backlog in_memory policy ((job ∷ []) ++ job ∷ job ∷ []) unused)
run_backlog-again_example =
    run_backlog-again in_memory policy answers letters (job ∷ []) (job ∷ job ∷ []) unused blank
      unused-Represents (inl refl, (inl refl, tt))
