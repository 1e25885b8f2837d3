-- ===== src/LoadTest/Thresholds/Verdict.antt =====
-- What a load test that passes its thresholds shows (scripts/load-test/assert-thresholds.ts).
use fincart_assissment.Common.{
  ℕ, ◌*◌, ◌≤◌, ◌<◌, ◌≡◌, refl, sym, ◌∙◌, ◌↔◌, inl, inr, Bool, true, false, ◌&&◌, ◌||◌, Option, some,
  List, [], ◌∷◌, length, All, ltb, leb, ◌==◌, arith, Bool-cases,
}
use mathlib.Core.Path.{subst}
use fincart_assissment.Common.Text.{Str}
use fincart_assissment.Common.Text.Laws.{str_eq_sound}
use fincart_assissment.Effects.{ok}
use fincart_assissment.Worker.Records.{ProcessedEventRecord}
use fincart_assissment.LoadTest.Report.{LoadTestReport}
use fincart_assissment.LoadTest.Thresholds.{
  AssertionResult, MongoStats, Query, tracked, terminal, duplicates, eligible, recovered, Mongo,
  counted, is_terminal, is_processed, was_retried, has_key, duplicate_keys, read_stats,
  try_read_mongo_stats, accept_criterion, terminal_criterion, unique_criterion, recovery_criterion,
  verdict, given, assert_thresholds,
}

-- No two records with one key.
abbrev pub Distinct : List ProcessedEventRecord → Type 0
Distinct [] = Unit
Distinct (d ∷ ds) = All (λ e. has_key d.idempotency_key e ≡ false) ds × Distinct ds

counted-le :
    (f : ProcessedEventRecord → Bool) (ds : List ProcessedEventRecord) → counted f ds ≤ length ds
counted-le f [] = omega arith
counted-le f (d ∷ ds) = ground (arith, counted-le f ds)

counted_all :
    (f : ProcessedEventRecord → Bool) (ds : List ProcessedEventRecord)
    → (counted f ds ≡ length ds) ↔ All (λ d. f d ≡ true) ds
counted_all f [] = (λ _. tt, λ _. refl)
counted_all f (d ∷ ds) = elim (Bool-cases (f d)) [
  | inl e ↦ (
    λ h. (e, (counted_all f ds).0 (ground arith)),
    λ (k, all). ground (arith, (counted_all f ds).1 all),
  )
  | inr e ↦ (
    λ h. absurd (ground (arith, counted-le f ds)),
    λ (k, all). absurd (let clash = sym e ∙ k in cc),
  )
]

counted_none :
    (f : ProcessedEventRecord → Bool) (ds : List ProcessedEventRecord)
    → (counted f ds ≡ 0) ↔ All (λ d. f d ≡ false) ds
counted_none f [] = (λ _. tt, λ _. refl)
counted_none f (d ∷ ds) = elim (Bool-cases (f d)) [
  | inr e ↦ (
    λ h. (e, (counted_none f ds).0 (ground arith)),
    λ (k, all). ground (arith, (counted_none f ds).1 all),
  )
  | inl e ↦ (λ h. absurd (ground arith), λ (k, all). absurd (let clash = sym e ∙ k in cc))
]

-- Among records with different keys, a key occurs at most once.
Distinct-counted :
    (key : Str) (ds : List ProcessedEventRecord) → Distinct ds → counted (has_key key) ds ≤ 1
Distinct-counted key [] h = omega arith
Distinct-counted key (d ∷ ds) (h, distinct) = elim (Bool-cases (has_key key d)) [
  | inl e ↦
      let same : d.idempotency_key ≡ key = str_eq_sound d.idempotency_key key e in
      let gone : counted (has_key key) ds ≡ 0 =
        (counted_none (has_key key) ds).1 (subst (λ k. All (λ x. has_key k x ≡ false) ds) same h) in
      ground arith
  | inr e ↦ ground (arith, Distinct-counted key ds distinct)
]

duplicate_keys-Distinct : (ds : List ProcessedEventRecord) → (duplicate_keys ds ≡ 0) ↔ Distinct ds
unfolding duplicate_keys
duplicate_keys-Distinct [] = (λ _. tt, λ _. refl)
duplicate_keys-Distinct (d ∷ ds) = (
  λ h.
      let distinct = (duplicate_keys-Distinct ds).0 (ground arith) in
      let few = Distinct-counted d.idempotency_key ds distinct in
      ((counted_none (has_key d.idempotency_key) ds).0 (ground arith), distinct),
  λ (alone, distinct).
      let none_left = (counted_none (has_key d.idempotency_key) ds).1 alone in
      let rest = (duplicate_keys-Distinct ds).1 distinct in ground arith,
)

-- What the queries find in a collection that nobody writes to.
abbrev stats_of : List ProcessedEventRecord → MongoStats
stats_of ds = record {
  total_tracked = length ds;
  terminal_tracked = counted (λ d. is_terminal d.status) ds;
  duplicate_idempotency_keys = duplicate_keys ds;
  retry_eligible = counted was_retried ds;
  recovered = counted (λ d. is_processed d.status && was_retried d) ds;
}

-- The load test was good: at least 99% of the events were accepted with a p95 of at most 2 s, every
-- record is closed, no key has two, and at least 95% of those tried more than once were processed.
abbrev pub IsGood : LoadTestReport → List ProcessedEventRecord → Type 0
IsGood report ds =
    (0 < report.summary.total_sent)
    × (99 * report.summary.total_sent ≤ report.summary.accepted * 100)
    × (report.latency.p95 ≤ 2000)
    × (0 < length ds)
    × All (λ d. is_terminal d.status ≡ true) ds
    × Distinct ds
    × (95 * counted was_retried ds ≤ counted (λ d. is_processed d.status && was_retried d) ds * 100)

numbers_iff :
    (sent accepted p95 all ended twice retried again : ℕ)
    → ((((ltb 0 sent && leb (99 * sent) (accepted * 100) && leb p95 2000)
            && (ltb 0 all && ended == all)
            && (twice == 0)
            && (retried == 0 || leb (95 * retried) (again * 100)))
          ≡ true)
        ↔ ((0 < sent)
            × (99 * sent ≤ accepted * 100)
            × (p95 ≤ 2000)
            × (0 < all)
            × (ended ≡ all)
            × (twice ≡ 0)
            × (95 * retried ≤ again * 100)))
numbers_iff sent accepted p95 all ended twice retried again = ground arith

verdict_iff :
    (report : LoadTestReport) (ds : List ProcessedEventRecord)
    → ((verdict report (some (stats_of ds))).all_passed ≡ true) ↔ IsGood report ds
unfolding verdict accept_criterion terminal_criterion unique_criterion recovery_criterion
verdict_iff report ds =
    let numbers =
      numbers_iff report.summary.total_sent report.summary.accepted report.latency.p95 (length ds)
        (counted (λ d. is_terminal d.status) ds) (duplicate_keys ds) (counted was_retried ds)
        (counted (λ d. is_processed d.status && was_retried d) ds) in
    (
      λ h.
          let (a, b, c, d, e, f, g) = numbers.0 h in
          (
            a,
            b,
            c,
            d,
            (counted_all (λ d. is_terminal d.status) ds).0 e,
            (duplicate_keys-Distinct ds).0 f,
            g,
          ),
      λ (a, b, c, d, e, f, g). numbers.1 (
        a,
        b,
        c,
        d,
        (counted_all (λ d. is_terminal d.status) ds).1 e,
        (duplicate_keys-Distinct ds).1 f,
        g,
      ),
    )

-- If MongoDB is named and answers, and each query finds the same records, then the thresholds are
-- judged, and they all pass exactly when the load test was good: at least 99% of its events were
-- accepted, with a p95 of at most 2 s; there is a record, every record is `processed` or
-- `dead_lettered`, no two have one key, and at least 95% of those attempted more than once were
-- processed.
pub assert_thresholds_iff :
    (report : LoadTestReport) (mongo_uri mongo_db_name : Option Str) (mongo : Mongo)
    (ds : List ProcessedEventRecord)
    → given mongo_uri ≡ true
    → given mongo_db_name ≡ true
    → mongo.made ≡ true
    → mongo.connects ≡ true
    → mongo.closes ≡ true
    → ((q : Query) → mongo.documents q ≡ some ds)
    → (r : AssertionResult) × ((assert_thresholds report mongo_uri mongo_db_name mongo ≡ ok r)
        × ((r.all_passed ≡ true) ↔ IsGood report ds))
unfolding assert_thresholds try_read_mongo_stats read_stats
assert_thresholds_iff report mongo_uri mongo_db_name mongo ds uri name made connects closes found =
    (
      verdict report (some (stats_of ds)),
      (
        rw
            (
              uri,
              name,
              made,
              connects,
              closes,
              found tracked,
              found terminal,
              found duplicates,
              found eligible,
              found recovered,
            )
            refl,
        verdict_iff report ds,
      ),
    )
