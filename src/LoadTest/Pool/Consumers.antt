-- ===== src/LoadTest/Pool/Consumers.antt =====
-- The consumers of a pool and what they have taken (scripts/load-test/run-load-test.ts).
use fincart_assissment.Common.{
  Replaced, here, there, ℕ, zero, suc, ◌+◌, ◌≤◌, ◌≡◌, refl, ap, List, [], ◌∷◌, ◌++◌, length, All,
  arith, item_at, take, total, total-append,
}
use fincart_assissment.LoadTest.Pool.{Consumer, awaiting, ended, failed, taken, called}

module _ {A : Type 0} where
  -- The items whose workers are awaited.
  abbrev pub held : Consumer A → List A
  held (awaiting x) = x ∷ []
  held ended = []
  held failed = []

  abbrev pub at_work : List (Consumer A) → List A
  at_work [] = []
  at_work (c ∷ cs) = held c ++ at_work cs

  -- A consumer that returned found no item left.
  abbrev pub Spent : ℕ → List A → Consumer A → Type 0
  Spent cursor items ended = length items ≤ cursor
  Spent cursor items _ = Unit

  pub take-suc : (n : ℕ) (xs : List A) → take (suc n) xs ≡ take n xs ++ called (item_at n xs)
  take-suc zero [] = refl
  take-suc zero (x ∷ xs) = refl
  take-suc (suc n) [] = refl
  take-suc (suc n) (x ∷ xs) = cc (take-suc n xs)

  pub Spent-cons :
      (n : ℕ) (x : A) (xs : List A) (c : Consumer A) → Spent n xs c → Spent (suc n) (x ∷ xs) c
  Spent-cons n x xs (awaiting y) h = tt
  Spent-cons n x xs ended h = omega arith
  Spent-cons n x xs failed h = tt

  pub Spent-taken : (n : ℕ) (xs : List A) → Spent (suc n) xs (taken (item_at n xs))
  Spent-taken n [] = omega arith
  Spent-taken zero (x ∷ xs) = tt
  Spent-taken (suc n) (x ∷ xs) = Spent-cons (suc n) x xs (taken (item_at n xs)) (Spent-taken n xs)

  pub at_work-append : (cs ds : List (Consumer A)) → at_work (cs ++ ds) ≡ at_work cs ++ at_work ds
  at_work-append [] ds = refl
  at_work-append (awaiting x ∷ cs) ds = cc (at_work-append cs ds)
  at_work-append (ended ∷ cs) ds = at_work-append cs ds
  at_work-append (failed ∷ cs) ds = at_work-append cs ds

  pub Replaced-total :
      (weight : A → ℕ) {c c' : Consumer A} {cs cs' : List (Consumer A)}
      → Replaced c c' cs cs'
      → total weight (at_work cs') + total weight (held c)
        ≡ total weight (at_work cs) + total weight (held c')
  Replaced-total weight {c} {c'} (here cs) =
      omega (
        arith,
        total-append weight (held c) (at_work cs),
        total-append weight (held c') (at_work cs),
      )
  Replaced-total weight (there d {cs} {cs'} r) = omega (
    arith,
    total-append weight (held d) (at_work cs),
    total-append weight (held d) (at_work cs'),
    Replaced-total weight r,
  )

  pub Replaced-length :
      {c c' : Consumer A} {cs cs' : List (Consumer A)}
      → Replaced c c' cs cs'
      → length cs' ≡ length cs
  Replaced-length (here cs) = refl
  Replaced-length (there d r) = ap suc (Replaced-length r)

  pub Spent-suc : (n : ℕ) (xs : List A) (c : Consumer A) → Spent n xs c → Spent (suc n) xs c
  Spent-suc n xs (awaiting x) h = tt
  Spent-suc n xs ended h = omega arith
  Spent-suc n xs failed h = tt

  pub All-Spent-suc :
      (n : ℕ) (xs : List A) (cs : List (Consumer A))
      → All (Spent n xs) cs
      → All (Spent (suc n) xs) cs
  All-Spent-suc n xs [] h = tt
  All-Spent-suc n xs (c ∷ cs) (h, hs) = (Spent-suc n xs c h, All-Spent-suc n xs cs hs)

  pub All-Spent-append :
      (n : ℕ) (xs : List A) (cs : List (Consumer A)) (c : Consumer A)
      → All (Spent n xs) cs
      → Spent n xs c
      → All (Spent n xs) (cs ++ c ∷ [])
  All-Spent-append n xs [] c h k = (k, tt)
  All-Spent-append n xs (d ∷ cs) c (p, h) k = (p, All-Spent-append n xs cs c h k)

  pub Replaced-Spent :
      (n : ℕ) (xs : List A) {c c' : Consumer A} {cs cs' : List (Consumer A)}
      → Replaced c c' cs cs'
      → All (Spent n xs) cs
      → Spent n xs c'
      → All (Spent n xs) cs'
  Replaced-Spent n xs (here cs) (p, h) k = (k, h)
  Replaced-Spent n xs (there d r) (p, h) k = (p, Replaced-Spent n xs r h k)
