-- ===== src/LoadTest/Pool/Completion.antt =====
-- Each item of a pool is handed out once, and the pool ends (scripts/load-test/run-load-test.ts).
use fincart_assissment.Common.{
  Replaced, here, there, ℕ, zero, suc, Option, none, some, item_at, ◌≤◌, ◌≡◌, refl, ap, ◌∙◌, ◌⊎◌,
  inl, inr, List, [], ◌∷◌, ◌++◌, map, length, All, arith, take, take_all, length-take-le, total,
  total-append, total_one, SameItems, at_least_one, at_least_one-pos,
}
use mathlib.Core.Path.{subst}
use fincart_assissment.Effects.{Action, Reply, ok, throw}
use fincart_assissment.Effects.Post.{Succeeds}
use fincart_assissment.LoadTest.Pool.{
  Consumer, awaiting, ended, failed, Pool, taken, PoolStep, resolve, reject, PoolRuns, begin, step,
  spawn, spawn_all, start_pool, empty_pool,
}
use fincart_assissment.LoadTest.Pool.Consumers.{held, at_work, Spent}
use fincart_assissment.LoadTest.Pool.Invariant.{settled_items, written, IsPool, PoolRuns-IsPool}

module _ {A : Type 0} where
  abbrev pub Unfailed : Consumer A → Type 0
  Unfailed failed = ⊥
  Unfailed _ = Unit

  length-at_work-le : (cs : List (Consumer A)) → length (at_work cs) ≤ length cs
  length-at_work-le [] = omega arith
  length-at_work-le (awaiting x ∷ cs) = omega (arith, length-at_work-le cs)
  length-at_work-le (ended ∷ cs) = omega (arith, length-at_work-le cs)
  length-at_work-le (failed ∷ cs) = omega (arith, length-at_work-le cs)

  -- Some consumer awaits its worker, or all have returned.
  awaiting-cases :
      (cs : List (Consumer A))
      → All Unfailed cs
      → ((x : A) × ((c : Consumer A) → (ds : List (Consumer A)) × Replaced (awaiting x) c cs ds))
        ⊎ All (λ c. c ≡ ended) cs
  awaiting-cases [] h = inr tt
  awaiting-cases (awaiting x ∷ cs) h = inl (x, λ c. (c ∷ cs, here cs))
  awaiting-cases (failed ∷ cs) (h, hs) = absurd h
  awaiting-cases (ended ∷ cs) (h, hs) = elim (awaiting-cases cs hs) [
    | inl (x, f) ↦ inl (x, λ c. let (ds, r) = f c in (ended ∷ ds, there ended r))
    | inr all ↦ inr (refl, all)
  ]

  at_work-of_ended :
      (n : ℕ) (items : List A) (cs : List (Consumer A))
      → All (λ c. c ≡ ended) cs
      → All (Spent n items) cs
      → (at_work cs ≡ []) × ((length cs ≡ 0) ⊎ (length items ≤ n))
  at_work-of_ended n items [] h k = (refl, inl refl)
  at_work-of_ended n items (c ∷ cs) (e, h) (l, k) =
      let (none_left, _) = at_work-of_ended n items cs h k in
      (ap (λ d. held d ++ at_work cs) e ∙ none_left, inr (subst (Spent n items) e l))

module _ {A O S E : Type 0} (worker : A → O → Action S E (Unit {0})) (items : List A) where
  -- Whatever the outcomes and their order: the items are handed out in their order, each that was
  -- handed out is with one consumer at work or in one settled call, there are at most
  -- max(1, maxConcurrent) at work, and the shared state is what the settled calls made of it, one
  -- whole call after the other.
  pub PoolRuns-once :
      {n : ℕ} {s : S} {k : ℕ} {p : Pool A O S}
      → PoolRuns worker items n s k p
      → (p.started ≡ take p.cursor items)
        × SameItems (settled_items worker items p ++ at_work p.consumers) p.started
        × (length (at_work p.consumers) ≤ at_least_one n)
        × (p.shared ≡ written worker items p.settled s)
  PoolRuns-once {p = p} runs =
      let h = PoolRuns-IsPool worker items runs in
      (
        h.in_order,
        λ weight.
            total-append weight (settled_items worker items p) (at_work p.consumers)
            ∙ h.once weight,
        omega (arith, length-at_work-le p.consumers, h.width),
        h.effect,
      )

  PoolStep-exists :
      (p : Pool A O S) (x : A) (o : O)
      → ((c : Consumer A) → (ds : List (Consumer A)) × Replaced (awaiting x) c p.consumers ds)
      → (q : Pool A O S) × PoolStep worker items p q
  PoolStep-exists p x o f = go (worker x o p.shared) refl
    where
      go :
          (result : S × Reply E (Unit {0}))
          → worker x o p.shared ≡ result
          → (q : Pool A O S) × PoolStep worker items p q
      go (s, ok tt) e = (_, resolve x o e (f _).1)
      go (s, throw er) e = (_, reject x o e (f _).1)

  total-settled : (log : List (A × O)) → total (λ _. 1) (map (λ call. call.0) log) ≡ length log
  total-settled [] = refl
  total-settled (call ∷ log) = omega (arith, total-settled log)

  settled-le :
      {n : ℕ} {s : S} {k : ℕ} {p : Pool A O S} → IsPool worker items n s k p → k ≤ length items
  settled-le {p = p} h =
      let same : total (λ _. 1) p.started ≡ total (λ _. 1) (take p.cursor items) =
        ap (total (λ _. 1)) h.in_order in
      omega (
        arith,
        h.once (λ _. 1),
        same,
        total-settled p.settled,
        total_one (take p.cursor items),
        length-take-le p.cursor items,
        h.count,
      )

  all_settled :
      (n : ℕ) {s : S} {k : ℕ} {p : Pool A O S}
      → IsPool worker items (at_least_one n) s k p
      → All (λ c. c ≡ ended) p.consumers
      → (p.started ≡ items) × SameItems (settled_items worker items p) items × (k ≡ length items)
  all_settled n {s} {k} {p} h all =
      (whole, same, omega (arith, same (λ _. 1), total-settled p.settled, total_one items, h.count))
    where
      idle : (at_work p.consumers ≡ []) × ((length p.consumers ≡ 0) ⊎ (length items ≤ p.cursor))
      idle = at_work-of_ended p.cursor items p.consumers all h.spent

      past : length items ≤ p.cursor
      past = elim idle.1 [
        | inl e ↦ absurd (omega (arith, h.width, at_least_one-pos n))
        | inr le ↦ le
      ]

      whole : p.started ≡ items
      whole = h.in_order ∙ take_all p.cursor items past

      same : SameItems (settled_items worker items p) items
      same weight =
          let none_left : total weight (at_work p.consumers) ≡ 0 = ap (total weight) idle.0 in
          let started : total weight p.started ≡ total weight items = ap (total weight) whole in
          omega (arith, h.once weight)

  -- While no worker has thrown, the pool has settled at most one call for each item; and either a
  -- worker is awaited, so that the pool goes on whatever its outcome, or every item was handed out
  -- and has its one settled call.
  pub PoolRuns-end :
      {n : ℕ} {s : S} {k : ℕ} {p : Pool A O S}
      → PoolRuns worker items n s k p
      → All Unfailed p.consumers
      → (o : O)
      → (k ≤ length items)
        × (((q : Pool A O S) × PoolStep worker items p q)
            ⊎ ((p.started ≡ items)
                × SameItems (settled_items worker items p) items
                × (k ≡ length items)))
  PoolRuns-end {n} {s} {k} {p} runs unfailed o = (
    settled-le h,
    elim (awaiting-cases p.consumers unfailed) [
      | inl (x, f) ↦ inl (PoolStep-exists p x o f)
      | inr all ↦ inr (all_settled n h all)
    ],
  )
    where
      h : IsPool worker items (at_least_one n) s k p
      h = PoolRuns-IsPool worker items runs

  Unfailed-taken : (o : Option A) → Unfailed (taken o)
  Unfailed-taken none = tt
  Unfailed-taken (some x) = tt

  All-Unfailed-append :
      (cs : List (Consumer A)) (c : Consumer A)
      → All Unfailed cs
      → Unfailed c
      → All Unfailed (cs ++ c ∷ [])
  All-Unfailed-append [] c all h = (h, tt)
  All-Unfailed-append (d ∷ cs) c (k, all) h = (k, All-Unfailed-append cs c all h)

  spawn_all-Unfailed :
      (m : ℕ) (p : Pool A O S)
      → All Unfailed p.consumers
      → All Unfailed (spawn_all m items p).consumers
  spawn_all-Unfailed zero p all = all
  spawn_all-Unfailed (suc m) p all = spawn_all-Unfailed m (spawn items p) (
      All-Unfailed-append p.consumers (taken (item_at p.cursor items)) all
        (Unfailed-taken (item_at p.cursor items)))

  Replaced-Unfailed :
      {c c' : Consumer A} {cs cs' : List (Consumer A)}
      → Replaced c c' cs cs'
      → All Unfailed cs
      → Unfailed c'
      → All Unfailed cs'
  Replaced-Unfailed (here cs) (k, all) h = (h, all)
  Replaced-Unfailed (there d r) (k, all) h = (k, Replaced-Unfailed r all h)

  -- With workers that do not throw, no consumer does.
  pub PoolRuns-Unfailed :
      ((x : A) (o : O) (s : S) → Succeeds (worker x o s))
      → {n : ℕ} {s : S} {k : ℕ} {p : Pool A O S} → PoolRuns worker items n s k p
      → All Unfailed p.consumers
  unfolding start_pool
  PoolRuns-Unfailed sure {n} {s} begin = spawn_all-Unfailed (at_least_one n) (empty_pool s) tt
  PoolRuns-Unfailed sure (step {p = p} runs (resolve x o e r)) =
      Replaced-Unfailed r (PoolRuns-Unfailed sure runs) (Unfailed-taken (item_at p.cursor items))
  PoolRuns-Unfailed sure (step {p = p} runs (reject x o e r)) =
      absurd (subst Succeeds e (sure x o p.shared))
