-- ===== src/Examples/Redelivery.antt =====
-- A dead letter that scripts/dlq/replay-dlq.ts puts back, and the worker that takes its job.
use fincart_assissment.Common.{refl, [], ◌∷◌}
use fincart_assissment.Contracts.{QueueJobPayload}
use fincart_assissment.Effects.Post.{Post}
use fincart_assissment.Replay.{ReplayJob}
use fincart_assissment.Replay.Order.{jobs_from}
use fincart_assissment.Replay.Delivery.{Untouched, run_jobs, replayed_jobs-change_nothing}
use fincart_assissment.Examples.Services.{in_memory}
use fincart_assissment.Examples.Processing.{event, policy, dead_record, dead_world}
use fincart_assissment.Examples.Replays.{letter, times}

abbrev handed_over : ReplayJob → QueueJobPayload
handed_over job = record event {
  event_id = job.event_id;
  event_type = job.event_type;
  idempotency_key = job.idempotency_key;
  trace_id = job.trace_id;
  payload = job.payload;
}

replayed_jobs-change_nothing_example :
    Post
      (λ w' _. Untouched in_memory policy dead_world w')
      (λ _ _. ⊥)
      (run_jobs in_memory policy handed_over
        (jobs_from times 0 (record { id = 1; letter = letter } ∷ []))
        dead_world)
replayed_jobs-change_nothing_example =
    replayed_jobs-change_nothing in_memory policy handed_over (λ job. refl) times 0
      (record { id = 1; letter = letter } ∷ []) dead_world ((dead_record, refl, refl), tt)
