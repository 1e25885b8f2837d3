-- ===== src/LoadTest/Events/Mixture.antt =====
-- What the events of a load test are made of (scripts/load-test/run-load-test.ts, buildEvents).
use fincart_assissment.Common.{
  ℕ, zero, suc, ◌+◌, ◌-◌, ◌*◌, ◌/◌, ◌≤◌, ◌≡◌, refl, sym, ap, ◌∙◌, some, List, [], ◌∷◌, ◌++◌, length,
  length-append, All, at_least_one, at_least_one-pos, min, arith,
}
use fincart_assissment.Hmac.{Hmac}
use fincart_assissment.LoadTest.Config.{
  LoadTestConfig, Environment, load_config, load_config-IsLoadTestConfig,
}
use fincart_assissment.LoadTest.Events.Copies.{
  Original, Copy, IsRandom, length-original_events, original_events-All, duplicate_events-Mixed,
}
use fincart_assissment.LoadTest.Events.{
  PreparedEvent, Draws, original_events, duplicate_events, duplicate_count, source_pool_size,
  build_events,
}

-- A list cut after some of its items.
split_at :
    {A : Type 0} (P : A → Type 0) (n : ℕ) (xs : List A)
    → n ≤ length xs
    → All P xs
    → (firsts : List A) × (rest : List A) × ((xs ≡ firsts ++ rest)
        × (length firsts ≡ n)
        × All P firsts
        × All P rest)
split_at P zero xs h all = ([], xs, (refl, refl, tt, all))
split_at P (suc n) [] h all = absurd (omega arith)
split_at P (suc n) (x ∷ xs) h (px, all) =
    let (firsts, rest, (e, l, pf, pr)) = split_at P n xs (omega arith) all in
    (x ∷ firsts, rest, (ap (λ l. x ∷ l) e, ap suc l, (px, pf), pr))

-- With a configuration that was accepted, for N requests: the first max(1, N / 2) are originals; then come the duplicates, N * percent / 100
-- of them or as many as there is room for, each with the key of one of those originals; and the
-- rest are originals. No read of the list is out of range. Each event's key is the one in its body.
pub build_events_lem :
    (hmac : Hmac) (draws : Draws) (env : Environment) (config : LoadTestConfig)
    → load_config env ≡ some config
    → ((i : ℕ) → IsRandom (draws.random i))
    → (firsts : List PreparedEvent) × (copies : List PreparedEvent) × (rest : List PreparedEvent)
      × ((build_events hmac draws config ≡ some (firsts ++ (copies ++ rest)))
          × (length (firsts ++ (copies ++ rest)) ≡ config.total_requests)
          × (length firsts ≡ at_least_one (config.total_requests / 2))
          × (length copies
              ≡ min
                  (config.total_requests * config.duplicate_percent / 100)
                  (config.total_requests - at_least_one (config.total_requests / 2)))
          × All Original firsts
          × All (Copy firsts) copies
          × All Original rest)
unfolding build_events duplicate_count source_pool_size
build_events_lem hmac draws env config accepted random =
    let h = (load_config-IsLoadTestConfig env config accepted).some_requests in
    let secret = config.signing_secret in
    let n = config.total_requests in
    let duplicates = n * config.duplicate_percent / 100 in
    let pool = at_least_one (n / 2) in
    let originals = original_events hmac draws secret n 0 in
    let size : length originals ≡ n = length-original_events hmac draws secret n 0 in
    let (firsts, tail, (e, l, pf, pr)) =
      split_at Original pool originals (ground arith) (original_events-All hmac draws secret n 0) in
    let lengths : length originals ≡ length firsts + length tail =
      ap length e ∙ length-append firsts tail in
    let (copies, rest, (made, count, left, all, plain)) =
      duplicate_events-Mixed hmac draws secret random firsts (rw l (at_least_one-pos (n / 2)))
        duplicates [] tail tt pr _ _ refl refl in
    let counted : length copies ≡ min duplicates (length tail) = omega arith in
    let room : length tail ≡ n - pool = omega arith in
    (
      firsts,
      copies,
      rest,
      (
        ap (duplicate_events hmac draws secret pool duplicates 0) e
            ∙ ap (λ p. duplicate_events hmac draws secret p duplicates 0 (firsts ++ tail)) (sym l)
            ∙ made,
        omega (arith, length-append firsts (copies ++ rest), length-append copies rest),
        l,
        counted ∙ ap (min duplicates) room,
        pf,
        all,
        plain,
      ),
    )
