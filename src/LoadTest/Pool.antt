-- ===== src/LoadTest/Pool.antt =====
-- scripts/load-test/run-load-test.ts (runConcurrencyPool): consumers that share a cursor. JavaScript
-- runs one of them at a time, up to the `await` of its worker, so the steps of the pool are the
-- settlements of the workers, in any order. The index that a worker is handed is left out: `run`
-- does not use it. `S` is what the workers write to, and `O` what they await.
pub mod Consumers
pub mod Invariant
pub mod Completion
use fincart_assissment.Common.{
  ℕ, zero, suc, ◌≡◌, Option, none, some, List, [], ◌∷◌, ◌++◌, item_at, at_least_one, Replaced,
}
use fincart_assissment.Effects.{Action, return, raise}

-- A consumer awaits its worker on an item, has returned, or has thrown what its worker threw.
pub data Consumer {ℓ} (A : Type ℓ) : Type ℓ where
  awaiting : A → Consumer A
  ended failed : Consumer A

-- `started` and `settled` are the calls of the worker, and their outcomes, in their order.
pub record Pool {ℓ} (A O S : Type ℓ) : Type ℓ where
  pub cursor : ℕ
  pub consumers : List (Consumer A)
  pub started : List A
  pub settled : List (A × O)
  pub shared : S

-- One round of `while (true)`: the consumer after it, and the calls that it made.
abbrev pub taken {ℓ} : {A : Type ℓ} → Option A → Consumer A
taken none = ended
taken (some x) = awaiting x

abbrev pub called {ℓ} : {A : Type ℓ} → Option A → List A
called none = []
called (some x) = x ∷ []

module _ {A O S : Type 0} where
  -- `consume()` of a new consumer.
  abbrev pub spawn : List A → Pool A O S → Pool A O S
  spawn items p = record {
    cursor = suc p.cursor;
    consumers = p.consumers ++ taken (item_at p.cursor items) ∷ [];
    started = p.started ++ called (item_at p.cursor items);
    settled = p.settled;
    shared = p.shared;
  }

  -- `Array.from({ length: n }, () => consume())`.
  abbrev pub spawn_all : ℕ → List A → Pool A O S → Pool A O S
  spawn_all zero items p = p
  spawn_all (suc n) items p = spawn_all n items (spawn items p)

  abbrev empty_pool : S → Pool A O S
  empty_pool s = record { cursor = 0; consumers = []; started = []; settled = []; shared = s }

  unfoldable pub start_pool : List A → ℕ → S → Pool A O S
  start_pool items max_concurrent s = spawn_all (at_least_one max_concurrent) items (empty_pool s)

  -- The worker that a consumer awaits resolves, and the consumer takes the next item.
  abbrev pub resumed : List A → A → O → S → List (Consumer A) → Pool A O S → Pool A O S
  resumed items x o s consumers p = record {
    cursor = suc p.cursor;
    consumers = consumers;
    started = p.started ++ called (item_at p.cursor items);
    settled = p.settled ++ (x, o) ∷ [];
    shared = s;
  }

  -- It rejects, and so does the consumer.
  abbrev pub rejected : A → O → S → List (Consumer A) → Pool A O S → Pool A O S
  rejected x o s consumers p = record {
    cursor = p.cursor;
    consumers = consumers;
    started = p.started;
    settled = p.settled ++ (x, o) ∷ [];
    shared = s;
  }

-- `worker x o` is what the worker on `x` does when what it awaits has the outcome `o`.
module _ {A O S E : Type 0} (worker : A → O → Action S E (Unit {0})) (items : List A) where
  pub data PoolStep (p : Pool A O S) : Pool A O S → Type 0 where
    resolve :
        (x : A) (o : O) {s : S} {cs : List (Consumer A)}
        → worker x o p.shared ≡ return tt s
        → Replaced (awaiting x) (taken (item_at p.cursor items)) p.consumers cs
        → PoolStep p (resumed items x o s cs p)
    reject :
        (x : A) (o : O) {s : S} {e : E} {cs : List (Consumer A)}
        → worker x o p.shared ≡ raise e s
        → Replaced (awaiting x) failed p.consumers cs
        → PoolStep p (rejected x o s cs p)

  -- `runConcurrencyPool(items, maxConcurrent, worker)` after some settlements of workers.
  pub data PoolRuns (max_concurrent : ℕ) (s : S) : ℕ → Pool A O S → Type 0 where
    begin : PoolRuns max_concurrent s 0 (start_pool items max_concurrent s)
    step :
        {n : ℕ} {p q : Pool A O S}
        → PoolRuns max_concurrent s n p
        → PoolStep p q
        → PoolRuns max_concurrent s (suc n) q
