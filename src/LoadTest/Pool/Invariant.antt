-- ===== src/LoadTest/Pool/Invariant.antt =====
-- What the settlements of the workers of a pool keep (scripts/load-test/run-load-test.ts).
use fincart_assissment.Common.{
  ℕ, zero, suc, ◌+◌, ◌≡◌, refl, sym, ap, ◌∙◌, Option, none, some, List, [], ◌∷◌, ◌++◌, map, length,
  All, arith, item_at, take, total, total-append, length-append, at_least_one,
}
use mathlib.Core.Path.{subst}
use fincart_assissment.Effects.{Action}
use fincart_assissment.LoadTest.Pool.{
  Pool, taken, called, spawn, spawn_all, start_pool, empty_pool, PoolStep, resolve, reject,
  PoolRuns, begin, step,
}
use fincart_assissment.LoadTest.Pool.Consumers.{
  held, at_work, Spent, take-suc, Spent-taken, at_work-append, Replaced-total, Replaced-length,
  All-Spent-suc, All-Spent-append, Replaced-Spent,
}

module _ {A O S E : Type 0} (worker : A → O → Action S E (Unit {0})) (items : List A) where
  -- What the settled workers made of the shared state, one after the other.
  abbrev pub written : List (A × O) → S → S
  written [] s = s
  written ((x, o) ∷ log) s = written log (worker x o s).0

  written-append :
      (log : List (A × O)) (x : A) (o : O) (s : S)
      → written (log ++ (x, o) ∷ []) s ≡ (worker x o (written log s)).0
  written-append [] x o s = refl
  written-append ((y, p) ∷ log) x o s = written-append log x o (worker y p s).0

  written-settled :
      (log : List (A × O)) (x : A) (o : O) (s₀ : S) {s s' : S}
      → (worker x o s).0 ≡ s'
      → s ≡ written log s₀
      → s' ≡ written (log ++ (x, o) ∷ []) s₀
  written-settled log x o s₀ e h =
      rw (written-append log x o s₀) (sym e ∙ ap (λ t. (worker x o t).0) h)

  abbrev pub settled_items : Pool A O S → List A
  settled_items p = map (λ call. call.0) p.settled

  -- `n` consumers, `s` the shared state at the start, `k` calls settled.
  pub record IsPool (n : ℕ) (s : S) (k : ℕ) (p : Pool A O S) : Type 0 where
    pub width : length p.consumers ≡ n
    pub in_order : p.started ≡ take p.cursor items
    pub once :
        (weight : A → ℕ)
        → total weight (settled_items p) + total weight (at_work p.consumers)
          ≡ total weight p.started
    pub spent : All (Spent p.cursor items) p.consumers
    pub effect : p.shared ≡ written p.settled s
    pub count : length p.settled ≡ k

  empty_pool-IsPool : (s : S) → IsPool 0 s 0 (empty_pool s)
  empty_pool-IsPool s = record {
    width = refl;
    in_order = refl;
    once = λ weight. refl;
    spent = tt;
    effect = refl;
    count = refl;
  }

  total-called :
      (weight : A → ℕ) (o : Option A)
      → total weight (at_work (taken o ∷ [])) ≡ total weight (called o)
  total-called weight none = refl
  total-called weight (some x) = refl

  spawn-IsPool :
      {n : ℕ} {s : S} (p : Pool A O S) → IsPool n s 0 p → IsPool (suc n) s 0 (spawn items p)
  spawn-IsPool {n} {s} p h = record {
    width = omega (arith, length-append p.consumers (taken (item_at p.cursor items) ∷ []), h.width);
    in_order =
        rw (take-suc p.cursor items) (ap (λ l. l ++ called (item_at p.cursor items)) h.in_order);
    once = λ weight. rw (at_work-append p.consumers (taken (item_at p.cursor items) ∷ [])) (
        omega (
          arith,
          total-append weight (at_work p.consumers) (at_work (taken (item_at p.cursor items) ∷ [])),
          total-append weight p.started (called (item_at p.cursor items)),
          total-called weight (item_at p.cursor items),
          h.once weight,
        ));
    spent =
        All-Spent-append (suc p.cursor) items p.consumers (taken (item_at p.cursor items))
          (All-Spent-suc p.cursor items p.consumers h.spent) (Spent-taken p.cursor items);
    effect = h.effect;
    count = h.count;
  }

  spawn_all-IsPool :
      {n k : ℕ} {s : S} (m : ℕ) (p : Pool A O S)
      → m + n ≡ k
      → IsPool n s 0 p
      → IsPool k s 0 (spawn_all m items p)
  spawn_all-IsPool {n} {k} {s} zero p e h =
      let e' : n ≡ k = omega arith in subst (λ m. IsPool m s 0 p) e' h
  spawn_all-IsPool (suc m) p e h =
      spawn_all-IsPool m (spawn items p) (omega arith) (spawn-IsPool p h)

  start_pool-IsPool : (n : ℕ) (s : S) → IsPool (at_least_one n) s 0 (start_pool items n s)
  unfolding start_pool
  start_pool-IsPool n s =
      spawn_all-IsPool (at_least_one n) (empty_pool s) (omega arith) (empty_pool-IsPool s)

  total-held-taken :
      (weight : A → ℕ) (o : Option A) → total weight (held (taken o)) ≡ total weight (called o)
  total-held-taken weight none = refl
  total-held-taken weight (some x) = refl

  settled-once :
      (weight : A → ℕ) (log : List (A × O)) (x : A) (o : O)
      → total weight (map (λ call. call.0) (log ++ (x, o) ∷ []))
        ≡ total weight (map (λ call. call.0) log) + weight x
  settled-once weight [] x o = omega arith
  settled-once weight ((y, p) ∷ log) x o = omega (arith, settled-once weight log x o)

  PoolStep-IsPool :
      {n k : ℕ} {s : S} {p q : Pool A O S}
      → PoolStep worker items p q
      → IsPool n s k p
      → IsPool n s (suc k) q
  PoolStep-IsPool {s = s} {p = p} (resolve x o e r) h = record {
    width = Replaced-length r ∙ h.width;
    in_order =
        rw (take-suc p.cursor items) (ap (λ l. l ++ called (item_at p.cursor items)) h.in_order);
    once = λ weight. omega (
      arith,
      settled-once weight p.settled x o,
      Replaced-total weight r,
      total-held-taken weight (item_at p.cursor items),
      total-append weight p.started (called (item_at p.cursor items)),
      h.once weight,
    );
    spent =
        Replaced-Spent (suc p.cursor) items r (All-Spent-suc p.cursor items p.consumers h.spent)
          (Spent-taken p.cursor items);
    effect = written-settled p.settled x o s (ap (λ result. result.0) e) h.effect;
    count = omega (arith, length-append p.settled ((x, o) ∷ []), h.count);
  }
  PoolStep-IsPool {s = s} {p = p} (reject x o e r) h = record {
    width = Replaced-length r ∙ h.width;
    in_order = h.in_order;
    once = λ weight.
        omega (arith, settled-once weight p.settled x o, Replaced-total weight r, h.once weight);
    spent = Replaced-Spent p.cursor items r h.spent tt;
    effect = written-settled p.settled x o s (ap (λ result. result.0) e) h.effect;
    count = omega (arith, length-append p.settled ((x, o) ∷ []), h.count);
  }

  pub PoolRuns-IsPool :
      {n : ℕ} {s : S} {k : ℕ} {p : Pool A O S}
      → PoolRuns worker items n s k p
      → IsPool (at_least_one n) s k p
  PoolRuns-IsPool {n} {s = s} begin = start_pool-IsPool n s
  PoolRuns-IsPool (step runs move) = PoolStep-IsPool move (PoolRuns-IsPool runs)
