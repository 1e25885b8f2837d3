-- ===== src/Examples/Stopping.antt =====
-- gateway-worker/src/main.ts: a worker that is signalled and does not drain its jobs in time.
use fincart_assissment.Common.{◌≡◌, ◌⊎◌, refl, true, false, [], ◌∷◌, ◌++◌, List, All}
use fincart_assissment.Service.Shutdown.{
  gateway_worker, worker, pends, Process, Run, awaiting, returned, thrown, closes, signalled,
  ShutdownStep, signal, fresh_process, ShutdownRuns, now, next,
}
use fincart_assissment.Service.Shutdown.Order.{
  left, after_worker, ShutdownRuns-in_order, drain_timeout-stops,
}

abbrev stopping : Process
stopping = signalled gateway_worker fresh_process

signalled_once : ShutdownRuns gateway_worker 15000 fresh_process stopping
signalled_once = next now signal

-- A second signal, while the jobs are drained.
abbrev signalled_again : Process
signalled_again = record {
  shutting_down = true;
  health_timer = false;
  called = worker ∷ [];
  runs = awaiting worker after_worker ∷ returned ∷ [];
}

twice : ShutdownRuns gateway_worker 15000 fresh_process signalled_again
unfolding signalled
twice = next (next now signal) signal

ShutdownRuns-in_order_example :
    ((signalled_again.shutting_down ≡ false)
      × (signalled_again.called ≡ [])
      × (signalled_again.runs ≡ []))
    ⊎ ((signalled_again.shutting_down ≡ true)
        × (signalled_again.health_timer ≡ false)
        × ((run : Run) × (runs : List Run) × ((signalled_again.runs ≡ run ∷ runs)
              × All (λ r. r ≡ returned) runs
              × (signalled_again.called ++ left run ≡ closes gateway_worker))))
ShutdownRuns-in_order_example = ShutdownRuns-in_order twice

abbrev timed_out : Process
timed_out = record signalled_again { runs = thrown worker after_worker ∷ returned ∷ [] }

drain_timeout-stops_example :
    ShutdownStep gateway_worker 15000 signalled_again timed_out × (timed_out.called ≡ worker ∷ [])
drain_timeout-stops_example = drain_timeout-stops pends twice refl tt now
