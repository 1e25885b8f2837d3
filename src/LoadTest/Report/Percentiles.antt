-- ===== src/LoadTest/Report/Percentiles.antt =====
-- The latencies of a report (scripts/load-test/reporter.ts).
use fincart_assissment.Common.{
  ℕ, zero, suc, ◌+◌, ◌-◌, ◌*◌, ◌≤◌, ◌<◌, ◌≡◌, refl, sym, ap, ◌∙◌, inl, inr, List, [], ◌∷◌, length,
  All, ltb, leb, if◌then◌else◌, item_at, total, total_one, SameItems, arith, Bool-cases,
}
use fincart_assissment.LoadTest.Report.{
  LoadTestRawResults, insert, sort, at_or_zero, last_or_zero, percentile_index, percentile,
  generate_report,
}

-- How many latencies are at most, and less than, `v`.
abbrev pub up_to : ℕ → ℕ → ℕ
up_to v x = if leb x v then 1 else 0

abbrev pub below : ℕ → ℕ → ℕ
below v x = if ltb x v then 1 else 0

abbrev Ascending : List ℕ → Type 0
Ascending [] = Unit
Ascending (x ∷ xs) = All (λ y. x ≤ y) xs × Ascending xs

insert-total :
    (weight : ℕ → ℕ) (x : ℕ) (xs : List ℕ) → total weight (insert x xs) ≡ weight x + total weight xs
unfolding insert
insert-total weight x [] = refl
insert-total weight x (y ∷ ys) = elim (Bool-cases (leb x y)) [
  | inl e ↦ rw (insert, e) refl
  | inr e ↦ rw (insert, e) (omega (arith, insert-total weight x ys))
]

sort-SameItems : (xs : List ℕ) → SameItems (sort xs) xs
unfolding sort
sort-SameItems [] weight = refl
sort-SameItems (x ∷ xs) weight =
    omega (arith, insert-total weight x (sort xs), sort-SameItems xs weight)

All-le : (a b : ℕ) (xs : List ℕ) → a ≤ b → All (λ y. b ≤ y) xs → All (λ y. a ≤ y) xs
All-le a b [] h all = tt
All-le a b (x ∷ xs) h (k, all) = (omega arith, All-le a b xs h all)

insert-All : (a x : ℕ) (xs : List ℕ) → a ≤ x → All (λ y. a ≤ y) xs → All (λ y. a ≤ y) (insert x xs)
unfolding insert
insert-All a x [] h all = (h, tt)
insert-All a x (y ∷ ys) h (k, all) = elim (Bool-cases (leb x y)) [
  | inl e ↦ rw (insert, e) (h, (k, all))
  | inr e ↦ rw (insert, e) (k, insert-All a x ys h all)
]

insert-Ascending : (x : ℕ) (xs : List ℕ) → Ascending xs → Ascending (insert x xs)
unfolding insert
insert-Ascending x [] h = (tt, tt)
insert-Ascending x (y ∷ ys) (k, h) = elim (Bool-cases (leb x y)) [
  | inl e ↦ let le : x ≤ y = ground arith in rw (insert, e) ((le, All-le x y ys le k), (k, h))
  | inr e ↦ rw (insert, e) (insert-All y x ys (ground arith) k, insert-Ascending x ys h)
]

sort-Ascending : (xs : List ℕ) → Ascending (sort xs)
unfolding sort
sort-Ascending [] = tt
sort-Ascending (x ∷ xs) = insert-Ascending x (sort xs) (sort-Ascending xs)

-- The item of an index: the items up to it are at most it, and those from it on are not below it.
below-none : (v : ℕ) (xs : List ℕ) → All (λ y. v ≤ y) xs → total (below v) xs ≡ 0
below-none v [] all = refl
below-none v (x ∷ xs) (h, all) = ground (arith, below-none v xs all)

All-item_at :
    (a : ℕ) (i : ℕ) (xs : List ℕ)
    → All (λ y. a ≤ y) xs
    → i < length xs
    → a ≤ at_or_zero (item_at i xs)
All-item_at a i [] all h = absurd (omega arith)
All-item_at a zero (x ∷ xs) (k, all) h = k
All-item_at a (suc i) (x ∷ xs) (k, all) h = All-item_at a i xs all (omega arith)

item_at-rank :
    (i : ℕ) (xs : List ℕ)
    → Ascending xs
    → i < length xs
    → (suc i ≤ total (up_to (at_or_zero (item_at i xs))) xs)
      × (total (below (at_or_zero (item_at i xs))) xs ≤ i)
item_at-rank i [] asc h = absurd (omega arith)
item_at-rank zero (x ∷ xs) (k, asc) h = (ground arith, ground (arith, below-none x xs k))
item_at-rank (suc i) (x ∷ xs) (k, asc) h =
    let (le, lt) = item_at-rank i xs asc (omega arith) in
    let first = All-item_at x i xs k (omega arith) in
    (ground (arith, le, first), ground (arith, lt, first))

item_at_mono :
    (i j : ℕ) (xs : List ℕ)
    → Ascending xs
    → i ≤ j
    → j < length xs
    → at_or_zero (item_at i xs) ≤ at_or_zero (item_at j xs)
item_at_mono i j [] asc h k = absurd (omega arith)
item_at_mono zero zero (x ∷ xs) asc h k = omega arith
item_at_mono zero (suc j) (x ∷ xs) (le, asc) h k = All-item_at x j xs le (omega arith)
item_at_mono (suc i) zero (x ∷ xs) asc h k = absurd (omega arith)
item_at_mono (suc i) (suc j) (x ∷ xs) (le, asc) h k =
    item_at_mono i j xs asc (omega arith) (omega arith)

percentile_index-rank :
    (n p : ℕ)
    → 0 < n
    → 0 < p
    → p ≤ 100
    → (percentile_index n p < n)
      × (p * n ≤ 100 * suc (percentile_index n p))
      × (100 * percentile_index n p < p * n)
unfolding percentile_index
percentile_index-rank n p h k l =
    let most : p * n ≤ 100 * n = grind arith in
    let some_of : 0 < p * n = grind arith in ground arith

-- The nearest-rank percentile `v` of the latencies: at least p% of them are at most `v`, and less
-- than p% are below `v`.
abbrev pub IsPercentile : ℕ → List ℕ → ℕ → Type 0
IsPercentile p latencies v =
    (p * length latencies ≤ 100 * total (up_to v) latencies)
    × (100 * total (below v) latencies < p * length latencies)

sort-length : (xs : List ℕ) → length (sort xs) ≡ length xs
sort-length xs = sym (total_one (sort xs)) ∙ sort-SameItems xs (λ _. 1) ∙ total_one xs

percentile-IsPercentile :
    (p : ℕ) (latencies : List ℕ)
    → 0 < p
    → p ≤ 100
    → 0 < length latencies
    → IsPercentile p latencies (percentile (sort latencies) p)
unfolding percentile
percentile-IsPercentile p latencies k l h =
    let sorted = sort latencies in
    let size = sort-length latencies in
    let i = percentile_index (length sorted) p in
    let v = at_or_zero (item_at i sorted) in
    let (lt, most, least) = percentile_index-rank (length sorted) p (omega arith) k l in
    let (up, down) = item_at-rank i sorted (sort-Ascending latencies) lt in
    let up' = sort-SameItems latencies (up_to v) in
    let down' = sort-SameItems latencies (below v) in
    let product : p * length sorted ≡ p * length latencies = ap (λ n. p * n) size in
    (omega arith, omega arith)

percentile_index_mono : (n p q : ℕ) → p ≤ q → percentile_index n p ≤ percentile_index n q
unfolding percentile_index
percentile_index_mono n p q h = let products : p * n ≤ q * n = grind arith in ground arith

percentile_mono :
    (p q : ℕ) (latencies : List ℕ)
    → p ≤ q
    → 0 < q
    → q ≤ 100
    → 0 < length latencies
    → percentile (sort latencies) p ≤ percentile (sort latencies) q
unfolding percentile
percentile_mono p q latencies h k l pos =
    let n = length (sort latencies) in
    let (lt, _, _) = percentile_index-rank n q (omega (arith, sort-length latencies)) k l in
    item_at_mono (percentile_index n p) (percentile_index n q) (sort latencies)
      (sort-Ascending latencies) (percentile_index_mono n p q h) lt

percentile-between :
    (p : ℕ) (latencies : List ℕ)
    → 0 < p
    → p ≤ 100
    → 0 < length latencies
    → (at_or_zero (item_at 0 (sort latencies)) ≤ percentile (sort latencies) p)
      × (percentile (sort latencies) p ≤ last_or_zero (sort latencies))
unfolding percentile
percentile-between p latencies k l pos =
    let n = length (sort latencies) in
    let asc = sort-Ascending latencies in
    let size = sort-length latencies in
    let (lt, _, _) = percentile_index-rank n p (omega arith) k l in
    (
      item_at_mono 0 (percentile_index n p) (sort latencies) asc (omega arith) lt,
      item_at_mono (percentile_index n p) (n - 1) (sort latencies) asc (omega arith) (omega arith),
    )

-- When there are latencies, the p50, p95 and p99 of the report are the nearest-rank percentiles of
-- them, in ascending order, between the report's least and greatest latency.
pub generate_report-percentiles :
    (results : LoadTestRawResults)
    → 0 < length results.latencies_ms
    → IsPercentile 50 results.latencies_ms (generate_report results).latency.p50
      × IsPercentile 95 results.latencies_ms (generate_report results).latency.p95
      × IsPercentile 99 results.latencies_ms (generate_report results).latency.p99
      × ((generate_report results).latency.min ≤ (generate_report results).latency.p50)
      × ((generate_report results).latency.p50 ≤ (generate_report results).latency.p95)
      × ((generate_report results).latency.p95 ≤ (generate_report results).latency.p99)
      × ((generate_report results).latency.p99 ≤ (generate_report results).latency.max)
unfolding generate_report
generate_report-percentiles results h =
    let xs = results.latencies_ms in
    (
      percentile-IsPercentile 50 xs (omega arith) (omega arith) h,
      percentile-IsPercentile 95 xs (omega arith) (omega arith) h,
      percentile-IsPercentile 99 xs (omega arith) (omega arith) h,
      (percentile-between 50 xs (omega arith) (omega arith) h).0,
      percentile_mono 50 95 xs (omega arith) (omega arith) (omega arith) h,
      percentile_mono 95 99 xs (omega arith) (omega arith) (omega arith) h,
      (percentile-between 99 xs (omega arith) (omega arith) h).1,
    )
