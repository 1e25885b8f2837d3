-- ===== src/LoadTest/Results/Reading.antt =====
-- A run writes its file of results, and the latest file is read back and judged
-- (scripts/load-test/run-load-test.ts, scripts/load-test/assert-thresholds.ts).
use fincart_assissment.Common.{
  ◌≡◌, refl, ap, ◌∙◌, inl, inr, true, Bool-cases, Option, some, List, [], ◌∷◌,
}
use fincart_assissment.Common.Text.{Str, text, str_eq}
use fincart_assissment.Common.Text.Laws.{str_eq_refl}
use fincart_assissment.Effects.{ok}
use fincart_assissment.Effects.Post.{Post, Post-continue, Post-weaken, Post-sure, Succeeds}
use fincart_assissment.LoadTest.Report.{LoadTestRawResults, LoadTestReport, generate_report}
use fincart_assissment.LoadTest.Thresholds.{AssertionResult, Mongo, assert_thresholds}
use fincart_assissment.LoadTest.Results.{
  Saved, wrapped, Entry, ends_with, is_result, result_names, read_saved, of_latest, report_of,
  asserted, read_latest_report, verdict_code, assert_script, put, Folder, write_results, finish_run,
}
use fincart_assissment.LoadTest.Results.Latest.{
  IsLatest, Occurs, str_lt_irrefl, last_name-sort_names,
}

module _ (n : Str) (saved : Saved) (json : ends_with n (text ".json") ≡ true) where
  abbrev written : Entry
  written = record { name = n; is_file = true; saved = some saved }

  written_result : is_result written ≡ true
  unfolding is_result
  written_result = rw json refl

  -- The names after an entry, and those after the entry and more.
  rest_IsLatest :
      (e : Entry) (es : List Entry)
      → IsLatest n (result_names (e ∷ es))
      → IsLatest n (result_names es)
  unfolding result_names
  rest_IsLatest e es h = elim (Bool-cases (is_result e)) [
    | inl result ↦ (rw (result_names, result) at h).1
    | inr other ↦ rw (result_names, other) at h
  ]

  cons_IsLatest :
      (e : Entry) (es es' : List Entry)
      → IsLatest n (result_names (e ∷ es))
      → IsLatest n (result_names es')
      → IsLatest n (result_names (e ∷ es'))
  unfolding result_names
  cons_IsLatest e es es' h k = elim (Bool-cases (is_result e)) [
    | inl result ↦ rw result ((rw (result_names, result) at h).0, k)
    | inr other ↦ rw other k
  ]

  written_IsLatest :
      (es : List Entry) → IsLatest n (result_names es) → IsLatest n (result_names (written ∷ es))
  unfolding result_names
  written_IsLatest es h = rw written_result (str_lt_irrefl n, h)

  put-IsLatest :
      (es : List Entry) → IsLatest n (result_names es) → IsLatest n (result_names (put n saved es))
  unfolding put
  put-IsLatest [] h = written_IsLatest [] h
  put-IsLatest (e ∷ es) h = elim (Bool-cases (str_eq e.name n)) [
    | inl same ↦ rw same (written_IsLatest es (rest_IsLatest e es h))
    | inr other ↦
        rw other (cons_IsLatest e es (put n saved es) h (put-IsLatest es (rest_IsLatest e es h)))
  ]

  Occurs-cons :
      (e : Entry) (es : List Entry) → Occurs n (result_names es) → Occurs n (result_names (e ∷ es))
  unfolding result_names
  Occurs-cons e es o = elim (Bool-cases (is_result e)) [
    | inl result ↦ rw result (inr o)
    | inr other ↦ rw other o
  ]

  Occurs-written : (es : List Entry) → Occurs n (result_names (written ∷ es))
  unfolding result_names
  Occurs-written es = rw written_result (inl refl)

  Occurs-put : (es : List Entry) → Occurs n (result_names (put n saved es))
  unfolding put
  Occurs-put [] = Occurs-written []
  Occurs-put (e ∷ es) = elim (Bool-cases (str_eq e.name n)) [
    | inl same ↦ rw same (Occurs-written es)
    | inr other ↦ rw other (Occurs-cons e (put n saved es) (Occurs-put es))
  ]

  read_saved-put : (es : List Entry) → read_saved n (put n saved es) ≡ some saved
  unfolding put read_saved
  read_saved-put [] = rw (str_eq_refl n) refl
  read_saved-put (e ∷ es) = elim (Bool-cases (str_eq e.name n)) [
    | inl same ↦ rw (same, str_eq_refl n) refl
    | inr other ↦ rw (other, other) (read_saved-put es)
  ]

  -- The file that was written last is the latest, and read back.
  read_latest_report-put :
      (es : List Entry)
      → IsLatest n (result_names es)
      → read_latest_report (some (put n saved es)) ≡ report_of (some saved)
  unfolding read_latest_report
  read_latest_report-put es h =
      ap (of_latest (put n saved es))
        (last_name-sort_names n (result_names (put n saved es)) (put-IsLatest es h) (Occurs-put es))
      ∙ ap report_of (read_saved-put es)

module _ (folder : Folder (Unit {0})) where
  -- The folder takes what is written.
  pub record Takes : Type 0 where
    pub makes : (s : folder.State) → Succeeds (folder.make_folder s)
    pub writes :
        (path : Str) (saved : Saved) (s : folder.State) → Succeeds (folder.write_file path saved s)

  write_results_puts :
      (path : Str) (raw : LoadTestRawResults) (report : LoadTestReport)
      (threshold : AssertionResult) (s : folder.State)
      → Takes
      → Post
          (λ s' _. folder.entries s' ≡ put path (wrapped raw report threshold) (folder.entries s))
          (λ _ _. ⊥)
          (write_results folder path raw report threshold s)
  write_results_puts path raw report threshold s takes =
      let saved = wrapped raw report threshold in
      Post-continue (λ _. folder.write_file path saved)
        (Post-sure (folder.make_folder_keeps s) (takes.makes s))
        (λ u _ same.
          Post-weaken (Post-sure (folder.write_file_puts path saved u) (takes.writes path saved u))
            (λ s' _ h. h ∙ ap (put path saved) same) (λ _ _ x. x))
        (λ _ _ x. absurd x)

  -- A load test whose thresholds could be checked, passed or not, and whose file can be written under
  -- a name of a file of results that comes after none of the others, ends normally. The script that
  -- asserts the thresholds then reads that run's report, and its exit code is the verdict on that report
  -- and on what it finds in MongoDB.
  pub assert_script-finish_run :
      (raw : LoadTestRawResults) (mongo_uri mongo_db_name : Option Str) (mongo : Mongo) (path : Str)
      (threshold : AssertionResult) (s : folder.State)
      → Takes
      → assert_thresholds (generate_report raw) mongo_uri mongo_db_name mongo ≡ ok threshold
      → ends_with path (text ".json") ≡ true
      → IsLatest path (result_names (folder.entries s))
      → (later_uri later_name : Option Str) (later : Mongo)
      → Post
          (λ s' _.
            (read_latest_report (some (folder.entries s')) ≡ ok (generate_report raw))
            × (assert_script (some (folder.entries s')) later_uri later_name later
                ≡ verdict_code
                    (assert_thresholds (generate_report raw) later_uri later_name later)))
          (λ _ _. ⊥)
          (finish_run folder raw mongo_uri mongo_db_name mongo path s)
  unfolding finish_run assert_script
  assert_script-finish_run raw mongo_uri mongo_db_name mongo path threshold s takes checked json
        latest later_uri later_name later =
      let report = generate_report raw in
      let saved = wrapped raw report threshold in
      rw checked (
        Post-weaken (write_results_puts path raw report threshold s takes)
          (λ s' _ h.
            let read : read_latest_report (some (folder.entries s')) ≡ ok report =
              ap (λ es. read_latest_report (some es)) h
              ∙ read_latest_report-put path saved json (folder.entries s) latest in
            (read, ap (asserted later_uri later_name later) read))
          (λ _ _ x. x))
