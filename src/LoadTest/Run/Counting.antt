-- ===== src/LoadTest/Run/Counting.antt =====
-- What the counts of a load test add up to (scripts/load-test/run-load-test.ts).
use fincart_assissment.Common.{
  ℕ, suc, ◌+◌, ◌≤◌, ◌≡◌, refl, sym, ap, ◌⊎◌, inl, inr, List, [], ◌∷◌, map, length, length-append,
  ltb, arith, take, total, total-take-le,
}
use mathlib.Core.Path.{subst, subst₂}
use fincart_assissment.Common.Text.{Str}
use fincart_assissment.Effects.Post.{Succeeds}
use fincart_assissment.LoadTest.Config.{LoadTestConfig}
use fincart_assissment.LoadTest.Events.{PreparedEvent}
use fincart_assissment.LoadTest.Report.{generate_report}
use fincart_assissment.LoadTest.Pool.{Pool, PoolStep, PoolRuns}
use fincart_assissment.LoadTest.Pool.Invariant.{PoolRuns-IsPool, written, settled_items}
use fincart_assissment.LoadTest.Pool.Completion.{PoolRuns-end, PoolRuns-Unfailed}
use fincart_assissment.LoadTest.Run.{
  Fetched, response, rejected, Tally, duplicate, new_tally, count_answer, send_event, raw_results,
}

-- After `k` answers, `d` of them to duplicates, of `a` duplicates.
record IsTally (a k d : ℕ) (t : Tally) : Type 0 where
  sent_all : t.counts.total_sent ≡ k
  timed : length t.latencies_ms ≡ k
  classes :
      t.counts.accepted202 + t.counts.bad_request400 + t.counts.unauthorized401
        + t.counts.service_unavailable503 + t.counts.network_errors
      ≤ k
  outcomes : t.duplicate_outcomes.duplicate_accepted + t.duplicate_outcomes.duplicate_rejected ≤ d
  accepted_too : t.duplicate_outcomes.duplicate_accepted ≤ t.counts.accepted202
  attempts : t.duplicate_outcomes.duplicate_attempts ≡ a
  injected : t.counts.duplicates_injected ≡ a

duplicate-le : (event : PreparedEvent) → duplicate event ≤ 1
duplicate-le event = ground arith

count_answer-IsTally :
    {a k d : ℕ} (event : PreparedEvent) (fetched : Fetched) (t : Tally)
    → IsTally a k d t
    → IsTally a (suc k) (d + duplicate event) (count_answer event fetched t)
unfolding count_answer
count_answer-IsTally {a} {k} {d} event (rejected latency) t h = record {
  sent_all = omega (arith, h.sent_all);
  timed = omega (arith, h.timed, length-append t.latencies_ms (latency ∷ []));
  classes = omega (arith, h.classes);
  outcomes = omega (arith, h.outcomes);
  accepted_too = h.accepted_too;
  attempts = h.attempts;
  injected = h.injected;
}
count_answer-IsTally {a} {k} {d} event (response status latency) t h = record {
  sent_all = ground (arith, h.sent_all);
  timed = ground (arith, h.timed, length-append t.latencies_ms (latency ∷ []));
  classes = ground (arith, h.classes);
  outcomes = ground (arith, h.outcomes);
  accepted_too = ground (arith, h.accepted_too, duplicate-le event);
  attempts = ground (arith, h.attempts);
  injected = ground (arith, h.injected);
}

written-IsTally :
    (events : List PreparedEvent) (log : List (PreparedEvent × Fetched)) {a k d k' d' : ℕ}
    (t : Tally)
    → k + length log ≡ k'
    → d + total duplicate (map (λ call. call.0) log) ≡ d'
    → IsTally a k d t
    → IsTally a k' d' (written send_event events log t)
unfolding send_event
written-IsTally events [] {a} {k} {d} {k'} {d'} t e f h =
    let e' : k ≡ k' = omega arith in
    let f' : d ≡ d' = omega arith in subst₂ (λ m n. IsTally a m n t) e' f' h
written-IsTally events ((event, fetched) ∷ log) t e f h =
    written-IsTally events log (count_answer event fetched t) (omega arith) (omega arith)
      (count_answer-IsTally event fetched t h)

new_tally-IsTally :
    (events : List PreparedEvent) → IsTally (total duplicate events) 0 0 (new_tally events)
unfolding new_tally
new_tally-IsTally events = record {
  sent_all = refl;
  timed = refl;
  classes = omega arith;
  outcomes = omega arith;
  accepted_too = omega arith;
  attempts = refl;
  injected = refl;
}

send_event-Succeeds :
    (event : PreparedEvent) (fetched : Fetched) (t : Tally) → Succeeds (send_event event fetched t)
unfolding send_event
send_event-Succeeds event fetched t = tt

PoolRuns-IsTally :
    (events : List PreparedEvent) {n k : ℕ} {p : Pool PreparedEvent Fetched Tally}
    → PoolRuns send_event events n (new_tally events) k p
    → (d : ℕ) × ((d ≤ total duplicate events) × IsTally (total duplicate events) k d p.shared)
PoolRuns-IsTally events {n} {k} {p} runs =
    let h = PoolRuns-IsPool send_event events runs in
    let started : total duplicate p.started ≡ total duplicate (take p.cursor events) =
      ap (total duplicate) h.in_order in
    (
      total duplicate (settled_items send_event events p),
      (
        omega (arith, h.once duplicate, total-take-le duplicate p.cursor events),
        subst
            (IsTally (total duplicate events) k
              (total duplicate (settled_items send_event events p)))
            (sym h.effect)
            (written-IsTally events p.settled (new_tally events) (omega (arith, h.count))
              (omega arith) (new_tally-IsTally events)),
      ),
    )

-- At any point of a load test, whatever the gateway answers and in whatever order: of the events,
-- as many are counted as sent as answers or network errors came in, with one latency each, and the
-- classes of answers add up to no more than that. No more duplicates are accepted or rejected than
-- were injected. So the report passes SC-003 exactly when a duplicate was injected. Either some
-- answer is awaited, or every event was sent and counted.
pub load_test-counts :
    (config : LoadTestConfig) (timestamp : Str) (events : List PreparedEvent) (n : ℕ) {k : ℕ}
    {p : Pool PreparedEvent Fetched Tally}
    → PoolRuns send_event events n (new_tally events) k p
    → (next : Fetched)
    → ((raw_results timestamp config p.shared).counts.total_sent ≡ k)
      × (length (raw_results timestamp config p.shared).latencies_ms ≡ k)
      × ((raw_results timestamp config p.shared).counts.accepted202
            + (raw_results timestamp config p.shared).counts.bad_request400
            + (raw_results timestamp config p.shared).counts.unauthorized401
            + (raw_results timestamp config p.shared).counts.service_unavailable503
            + (raw_results timestamp config p.shared).counts.network_errors
          ≤ k)
      × ((raw_results timestamp config p.shared).duplicate_outcomes.duplicate_accepted
            + (raw_results timestamp config p.shared).duplicate_outcomes.duplicate_rejected
          ≤ total duplicate events)
      × ((generate_report (raw_results timestamp config p.shared)).success_criteria.sc003.passed
          ≡ ltb 0 (total duplicate events))
      × (((q : Pool PreparedEvent Fetched Tally) × PoolStep send_event events p q)
          ⊎ (k ≡ length events))
unfolding raw_results generate_report
load_test-counts config timestamp events n {k} {p} runs next =
    let (d, (few, h)) = PoolRuns-IsTally events runs in
    let ended =
      PoolRuns-end send_event events runs
        (PoolRuns-Unfailed send_event events (send_event-Succeeds) runs) next in
    (
      h.sent_all,
      h.timed,
      h.classes,
      omega (arith, h.outcomes),
      ground (arith, h.outcomes, h.attempts, h.injected, few),
      elim ended.1 [ inl step ↦ inl step | inr (whole, same, count) ↦ inr count ],
    )
