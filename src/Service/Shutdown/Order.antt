-- ===== src/Service/Shutdown/Order.antt =====
-- The closes of a shutdown: their order, and what stops them (gateway-api/src/main.ts,
-- gateway-worker/src/main.ts).
use fincart_assissment.Common.{
  ℕ, ◌≤◌, arith, ◌≡◌, ◌⊎◌, inl, inr, refl, sym, ap, ◌∙◌, Bool, true, false, some, List, [], ◌∷◌,
  ◌++◌, All, Replaced, here, there,
}
use mathlib.Core.List.{append_assoc, append_cancel_right}
use mathlib.Core.Path.{subst}
use fincart_assissment.Effects.{throw}
use fincart_assissment.Service.Shutdown.{
  Service, Resource, Settlement, resolves, rejects, pends, gateway_worker, worker, dlq_queue,
  redis_connection, mongo_client, close_with_timeout, closes, awaited, Run, awaiting, returned,
  thrown, Process, go_on, call, signalled, ShutdownStep, signal, resolve, reject, fresh_process,
  ShutdownRuns, now, next,
}

-- The closes that a run has not called.
abbrev pub left : Run → List Resource
left (awaiting r rest) = rest
left returned = []
left (thrown r rest) = rest

-- Nothing is shutting down, or the first run has called what it has not left, and the others returned.
data IsShutdown (service : Service) : Process → Type 0 where
  not_yet :
      (timer : Bool)
      → IsShutdown service
          (record { shutting_down = false; health_timer = timer; called = []; runs = [] })
  begun :
      (called : List Resource) (run : Run) (runs : List Run)
      → called ++ left run ≡ closes service
      → All (λ r. r ≡ returned) runs
      → IsShutdown service (record {
        shutting_down = true;
        health_timer = false;
        called = called;
        runs = run ∷ runs;
      })

All-returned-append :
    (runs : List Run)
    → All (λ r. r ≡ returned) runs
    → All (λ r. r ≡ returned) (runs ++ returned ∷ [])
All-returned-append [] h = (refl, tt)
All-returned-append (r ∷ runs) (e, h) = (e, All-returned-append runs h)

-- None of the runs that returned is replaced.
no_awaiting :
    {r : Resource} {rest : List Resource} {c : Run} {runs runs' : List Run}
    → Replaced (awaiting r rest) c runs runs'
    → All (λ run. run ≡ returned) runs
    → ⊥
no_awaiting (here cs) (e, h) = cc
no_awaiting (there d r) (e, h) = no_awaiting r h

call-go_on : (rest : List Resource) → call rest ++ left (go_on rest) ≡ rest
call-go_on [] = refl
call-go_on (r ∷ rest) = refl

begin_closing : (service : Service) → IsShutdown service (signalled service fresh_process)
unfolding signalled
begin_closing Service.gateway_api = begun _ _ [] refl tt
begin_closing Service.gateway_worker = begun _ _ [] refl tt

ShutdownStep-IsShutdown :
    {service : Service} {drain_timeout_ms : ℕ} {s t : Process}
    → ShutdownStep service drain_timeout_ms s t
    → IsShutdown service s
    → IsShutdown service t
unfolding signalled
ShutdownStep-IsShutdown {service} signal (not_yet timer) = begin_closing service
ShutdownStep-IsShutdown signal (begun called run runs e all) =
    begun called run (runs ++ returned ∷ []) e (All-returned-append runs all)
ShutdownStep-IsShutdown (resolve p e r) (not_yet timer) = absurd (no_awaiting r tt)
ShutdownStep-IsShutdown (resolve {rest = rest} p e (here cs)) (begun called run runs whole all) =
    begun (called ++ call rest) (go_on rest) cs
      (append_assoc called (call rest) (left (go_on rest))
        ∙ (ap (λ l. called ++ l) (call-go_on rest) ∙ whole))
      all
ShutdownStep-IsShutdown (resolve p e (there d r)) (begun called run runs whole all) =
    absurd (no_awaiting r all)
ShutdownStep-IsShutdown (reject p e r) (not_yet timer) = absurd (no_awaiting r tt)
ShutdownStep-IsShutdown (reject {r} {rest} p e (here cs)) (begun called run runs whole all) =
    begun called (thrown r rest) cs whole all
ShutdownStep-IsShutdown (reject p e (there d r)) (begun called run runs whole all) =
    absurd (no_awaiting r all)

ShutdownRuns-IsShutdown :
    {service : Service} {drain_timeout_ms : ℕ} {s : Process}
    → ShutdownRuns service drain_timeout_ms fresh_process s
    → IsShutdown service s
ShutdownRuns-IsShutdown now = not_yet true
ShutdownRuns-IsShutdown (next runs move) =
    ShutdownStep-IsShutdown move (ShutdownRuns-IsShutdown runs)

-- The closes are called in the order of the code, each once, however often the process is signalled
-- and whenever: before a signal none is called; afterwards one run of `shutdown` has called those
-- that it has not left, each after the one before was resolved, and the other runs have returned.
pub ShutdownRuns-in_order :
    {service : Service} {drain_timeout_ms : ℕ} {s : Process}
    → ShutdownRuns service drain_timeout_ms fresh_process s
    → ((s.shutting_down ≡ false) × (s.called ≡ []) × (s.runs ≡ []))
      ⊎ ((s.shutting_down ≡ true)
          × (s.health_timer ≡ false)
          × ((run : Run) × (runs : List Run) × ((s.runs ≡ run ∷ runs)
                × All (λ r. r ≡ returned) runs
                × (s.called ++ left run ≡ closes service))))
ShutdownRuns-in_order runs = go (ShutdownRuns-IsShutdown runs)
  where
    go :
        {service : Service} {s : Process}
        → IsShutdown service s
        → ((s.shutting_down ≡ false) × (s.called ≡ []) × (s.runs ≡ []))
          ⊎ ((s.shutting_down ≡ true)
              × (s.health_timer ≡ false)
              × ((run : Run) × (runs : List Run) × ((s.runs ≡ run ∷ runs)
                    × All (λ r. r ≡ returned) runs
                    × (s.called ++ left run ≡ closes service))))
    go (not_yet timer) = inl (refl, refl, refl)
    go (begun called run runs whole all) = inr (refl, refl, (run, runs, (refl, all, whole)))

-- A run that threw, with no other at work: nothing more is called.
record IsStopped (called : List Resource) (r : Resource) (rest : List Resource) (s : Process)
    : Type 0 where
  flag : s.shutting_down ≡ true
  kept : s.called ≡ called
  others : List Run
  runs : s.runs ≡ thrown r rest ∷ others
  idle : All (λ run. run ≡ returned) others

stopped_first :
    {r r' : Resource} {rest rest' : List Resource} {c : Run} {others runs : List Run}
    → Replaced (awaiting r rest) c (thrown r' rest' ∷ others) runs
    → All (λ run. run ≡ returned) others
    → ⊥
stopped_first (there d replaced) h = no_awaiting replaced h

none_awaits :
    {r r' : Resource} {rest rest' : List Resource} {c : Run} {others cs runs : List Run}
    → Replaced (awaiting r rest) c cs runs
    → cs ≡ thrown r' rest' ∷ others
    → All (λ run. run ≡ returned) others
    → ⊥
none_awaits {r} {rest = rest} {c = c} {runs = runs} replaced e h =
    stopped_first {c = c} {runs = runs}
      (subst (λ l. Replaced (awaiting r rest) c l runs) e replaced) h

ShutdownStep-IsStopped :
    {service : Service} {drain_timeout_ms : ℕ} {called : List Resource} {r : Resource}
    {rest : List Resource} {s t : Process}
    → ShutdownStep service drain_timeout_ms s t
    → IsStopped called r rest s
    → IsStopped called r rest t
unfolding signalled
ShutdownStep-IsStopped signal h = rw h.flag (record {
  flag = refl;
  kept = h.kept;
  others = h.others ++ returned ∷ [];
  runs = ap (λ l. l ++ returned ∷ []) h.runs;
  idle = All-returned-append h.others h.idle;
})
ShutdownStep-IsStopped (resolve p e replaced) h = absurd (none_awaits replaced h.runs h.idle)
ShutdownStep-IsStopped (reject p e replaced) h = absurd (none_awaits replaced h.runs h.idle)

ShutdownRuns-IsStopped :
    {service : Service} {drain_timeout_ms : ℕ} {called : List Resource} {r : Resource}
    {rest : List Resource} {s t : Process}
    → ShutdownRuns service drain_timeout_ms s t
    → IsStopped called r rest s
    → IsStopped called r rest t
ShutdownRuns-IsStopped now h = h
ShutdownRuns-IsStopped (next runs move) h =
    ShutdownStep-IsStopped move (ShutdownRuns-IsStopped runs h)

-- The worker was not closed when the time to drain it was over, or could not be closed.
abbrev pub IsLate : ℕ → Settlement → Type 0
IsLate drain_timeout_ms (resolves after) = drain_timeout_ms ≤ after
IsLate drain_timeout_ms (rejects after) = Unit
IsLate drain_timeout_ms pends = Unit

late_throws :
    (drain_timeout_ms : ℕ) (p : Settlement)
    → IsLate drain_timeout_ms p
    → awaited drain_timeout_ms worker p ≡ some (throw tt)
unfolding awaited close_with_timeout
late_throws drain_timeout_ms (resolves after) h = ground arith
late_throws drain_timeout_ms (rejects after) h = refl
late_throws drain_timeout_ms pends h = refl

abbrev pub after_worker : List Resource
after_worker = dlq_queue ∷ redis_connection ∷ mongo_client ∷ []

-- When the jobs of the worker are not drained in time, or its close rejects, the shutdown stops there:
-- the dead-letter queue, Redis and MongoDB are never closed, whatever signals follow.
pub drain_timeout-stops :
    {drain_timeout_ms : ℕ} {s t : Process} {others : List Run} (p : Settlement)
    → ShutdownRuns gateway_worker drain_timeout_ms fresh_process s
    → s.runs ≡ awaiting worker after_worker ∷ others
    → IsLate drain_timeout_ms p
    → ShutdownRuns gateway_worker drain_timeout_ms
        (record s { runs = thrown worker after_worker ∷ others })
        t
    → ShutdownStep gateway_worker drain_timeout_ms s
        (record s { runs = thrown worker after_worker ∷ others })
      × (t.called ≡ worker ∷ [])
drain_timeout-stops {drain_timeout_ms} {s} {t} {others} p runs waits late later =
    elim (ShutdownRuns-in_order runs) [
      | inl (_, _, none_yet) ↦ absurd (let clash = sym waits ∙ none_yet in cc)
      | inr (flag, _, (run, more, (same, idle, whole))) ↦
          let heads = sym same ∙ waits in
          let current : run ≡ awaiting worker after_worker = cc in
          let tails : more ≡ others = cc in
          let called : s.called ++ after_worker ≡ worker ∷ after_worker =
            ap (λ r. s.called ++ left r) (sym current) ∙ whole in
          let stopped = ShutdownRuns-IsStopped later (record {
            flag = flag;
            kept = refl;
            others = others;
            runs = refl;
            idle = subst (All (λ r. r ≡ returned)) tails idle;
          }) in
          (
            reject {r = worker} {rest = after_worker} p (late_throws drain_timeout_ms p late)
                (rw waits (here others)),
            stopped.kept ∙ append_cancel_right s.called (worker ∷ []) after_worker called,
          )
    ]
