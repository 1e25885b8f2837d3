-- ===== src/Examples/Results.antt =====
-- scripts/load-test/: a run's file of results, in a folder kept in memory that has an older one.
use fincart_assissment.Common.{◌≡◌, refl, ◌↔◌, true, some, none, List, [], ◌∷◌}
use fincart_assissment.Common.Text.{Str, text, starts_with}
use fincart_assissment.Effects.{ok}
use fincart_assissment.Effects.Post.{Post, returned}
use fincart_assissment.LoadTest.Report.{generate_report}
use fincart_assissment.LoadTest.Thresholds.{AssertionResult, assert_thresholds}
use fincart_assissment.LoadTest.Thresholds.Verdict.{IsGood, assert_thresholds_iff}
use fincart_assissment.LoadTest.Results.{
  Entry, bare, ends_with, is_result, result_names, str_lt, read_latest_report, verdict_code,
  assert_script, put, Folder, finish_run,
}
use fincart_assissment.LoadTest.Results.Latest.{IsLatest}
use fincart_assissment.LoadTest.Results.Reading.{Takes, assert_script-finish_run}
use fincart_assissment.Examples.LoadTests.{results, tracked_record, mongo, is_named, is_named'}

abbrev folder_in_memory : Folder (Unit {0})
folder_in_memory = record {
  State = List Entry;
  entries = λ s. s;
  make_folder = λ s. (s, ok tt);
  write_file = λ path saved s. (put path saved s, ok tt);
  make_folder_keeps = λ s. returned refl;
  write_file_puts = λ path saved s. returned refl;
}

abbrev older : Entry
older = record {
  name = text "results-1.json";
  is_file = true;
  saved = some (bare (generate_report results));
}

abbrev readme : Entry
readme = record { name = text "results.txt"; is_file = true; saved = none }

abbrev path_now : Str
path_now = text "results-2.json"

path_now_json : ends_with path_now (text ".json") ≡ true
unfolding ends_with starts_with
path_now_json = refl

path_now-IsLatest : IsLatest path_now (result_names (older ∷ readme ∷ []))
unfolding result_names is_result ends_with starts_with str_lt
path_now-IsLatest = (refl, tt)

takes : Takes folder_in_memory
takes = record { makes = λ s. tt; writes = λ path saved s. tt }

judged_results :
    (r : AssertionResult) × ((assert_thresholds
          (generate_report results)
          (some (text "mongodb://db"))
          (some (text "gateway"))
          mongo
        ≡ ok r)
      × ((r.all_passed ≡ true) ↔ IsGood (generate_report results) (tracked_record ∷ [])))
judged_results =
    assert_thresholds_iff (generate_report results) (some (text "mongodb://db"))
      (some (text "gateway")) mongo (tracked_record ∷ []) is_named is_named' refl refl refl
      (λ q. refl)

assert_script-finish_run_example :
    Post
      (λ s' _.
        (read_latest_report (some s') ≡ ok (generate_report results))
        × (assert_script (some s') none none mongo
            ≡ verdict_code (assert_thresholds (generate_report results) none none mongo)))
      (λ _ _. ⊥)
      (finish_run folder_in_memory results
        (some (text "mongodb://db"))
        (some (text "gateway"))
        mongo
        path_now
        (older ∷ readme ∷ []))
assert_script-finish_run_example =
    assert_script-finish_run folder_in_memory results (some (text "mongodb://db"))
      (some (text "gateway")) mongo path_now judged_results.0 (older ∷ readme ∷ []) takes
      judged_results.1.0 path_now_json path_now-IsLatest none none mongo
