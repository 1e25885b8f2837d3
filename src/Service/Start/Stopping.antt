-- ===== src/Service/Start/Stopping.antt =====
-- The start of a service, and the shutdown that ends what it began (gateway-api/src/main.ts,
-- gateway-worker/src/main.ts).
use fincart_assissment.Common.{
  ℕ, ◌≡◌, inl, inr, refl, sym, ap, ◌∙◌, true, false, Option, List, [], ◌∷◌, ◌++◌,
}
use mathlib.Core.List.{reverse, append-nil}
use fincart_assissment.Common.Text.{Str}
use fincart_assissment.Effects.{Reply}
use fincart_assissment.Effects.Post.{Post, returned, thrown}
use fincart_assissment.Service.Connection.{Closes}
use fincart_assissment.Service.Shutdown
use fincart_assissment.Service.Shutdown.{
  Service, gateway_api, gateway_worker, closes, Process, fresh_process, Run, ShutdownRuns,
}
use fincart_assissment.Service.Shutdown.Order.{left, ShutdownRuns-in_order}
use fincart_assissment.Service.Start.{StartError, Libraries, Boot, discard, start}
use fincart_assissment.Service.Start.Opening.{Opened, Progress, start_worker_opens, start_api_opens}

twice_reversed : (service : Service) → reverse (reverse (closes service)) ≡ closes service
twice_reversed gateway_api = refl
twice_reversed gateway_worker = refl

-- A run of `shutdown` that has returned has called all the closes.
all_called :
    (service : Service) (drain_timeout_ms : ℕ) (t : Process) (runs : List Run)
    → ShutdownRuns service drain_timeout_ms fresh_process t
    → t.runs ≡ Shutdown.returned ∷ runs
    → t.called ≡ closes service
all_called service drain_timeout_ms t runs steps done =
    elim (ShutdownRuns-in_order {service = service} {drain_timeout_ms = drain_timeout_ms} steps) [
      | inl (_, _, none_yet) ↦ absurd (cc)
      | inr (_, _, (run, others, (same, _, order))) ↦
          let ended : run ≡ Shutdown.returned = cc in
          sym (append-nil t.called) ∙ (ap (λ r. t.called ++ left r) (sym ended) ∙ order)
    ]

module _ {E : Type 0} (l : Libraries E) where
  -- The resources are closed in the reverse order.
  abbrev pub Undone : Process → Boot l → Type 0
  Undone t s = (t.called ≡ reverse s.opened) × (l.client.connected s.mongo ≡ true)

  discard-Undone :
      {A : Type 0} (service : Service) (t : Process) {r : Boot l × Reply (StartError E) A}
      → t.called ≡ closes service
      → Post (λ s _. Opened l service s) (λ s _. Progress l service s) r
      → Post (λ s _. Undone t s) (λ s _. Progress l service s) (discard l r)
  discard-Undone service t called (returned (order, linked)) =
      returned (called ∙ (sym (twice_reversed service) ∙ ap reverse (sym order)), linked)
  discard-Undone service t called (thrown h) = thrown h

  -- A service starts with nothing open, and MongoDB's client can be closed. If it has started and a
  -- run of its shutdown has returned, then all that the start opened was closed, in the reverse order.
  -- If it has not started, then what it opened is the beginning of that, and MongoDB's client is
  -- connected exactly if anything is open.
  pub start-shutdown :
      (service : Service) (variables : Str → Option Str) (s : Boot l)
      → Closes l.client
      → s.opened ≡ []
      → l.client.connected s.mongo ≡ false
      → (drain_timeout_ms : ℕ) (t : Process) (runs : List Run)
      → ShutdownRuns service drain_timeout_ms fresh_process t
      → t.runs ≡ Shutdown.returned ∷ runs
      → Post (λ s' _. Undone t s') (λ s' _. Progress l service s') (start l service variables s)
  unfolding start
  start-shutdown gateway_worker variables s closing none_open unlinked timeout t runs steps done =
      discard-Undone gateway_worker t (all_called gateway_worker timeout t runs steps done)
        (start_worker_opens l closing variables s none_open unlinked)
  start-shutdown gateway_api variables s closing none_open unlinked timeout t runs steps done =
      discard-Undone gateway_api t (all_called gateway_api timeout t runs steps done)
        (start_api_opens l closing variables s none_open unlinked)
