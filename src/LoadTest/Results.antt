-- ===== src/LoadTest/Results.antt =====
-- The files of results: what scripts/load-test/run-load-test.ts (run) writes at its end, and how
-- scripts/load-test/assert-thresholds.ts reads the latest of them back (readLatestReport) and sets its
-- exit code. A file is seen as what `JSON.parse` makes of it; writing it by `JSON.stringify` gives the
-- same value back. What is printed is left out.
pub mod Latest
pub mod Reading
use fincart_assissment.Common.{
  ℕ, ◌≡◌, Bool, true, false, ◌&&◌, ◌||◌, Option, none, some, List, [], ◌∷◌, ◌++◌, map, ltb, ◌==◌,
  if◌then◌else◌,
}
use mathlib.Core.List.{reverse}
use fincart_assissment.Common.Text.{Str, text, str_eq, starts_with}
use fincart_assissment.Effects.{Reply, ok, throw, Action, ◌>>=◌, ◌>>◌}
use fincart_assissment.Effects.Post.{Post}
use fincart_assissment.LoadTest.Report.{LoadTestRawResults, LoadTestReport, generate_report}
use fincart_assissment.LoadTest.Thresholds.{AssertionResult, Mongo, assert_thresholds}

-- An object with a report in it, as a run writes it, or a report alone.
pub data Saved : Type 0 where
  wrapped : LoadTestRawResults → LoadTestReport → AssertionResult → Saved
  bare : LoadTestReport → Saved

-- An entry of the folder; `saved` is `none` if it cannot be read or parsed.
pub record Entry : Type 0 where
  pub name : Str
  pub is_file : Bool
  pub saved : Option Saved

-- `<` on texts, by their code units.
unfoldable pub str_lt : Str → Str → Bool
str_lt [] [] = false
str_lt [] (d ∷ t) = true
str_lt (c ∷ s) [] = false
str_lt (c ∷ s) (d ∷ t) = ltb c d || (c == d && str_lt s t)

unfoldable pub insert_name : Str → List Str → List Str
unfolding str_lt
insert_name name [] = name ∷ []
insert_name name (other ∷ names) =
    let rest = insert_name name names in
    if str_lt name other then name ∷ other ∷ names else other ∷ rest

-- `sort()`.
unfoldable pub sort_names : List Str → List Str
unfolding insert_name
sort_names [] = []
sort_names (name ∷ names) = insert_name name (sort_names names)

unfoldable pub ends_with : Str → Str → Bool
unfolding starts_with
ends_with s suffix = starts_with (reverse s) (reverse suffix)

unfoldable pub is_result : Entry → Bool
unfolding ends_with
is_result entry = entry.is_file && ends_with entry.name (text ".json")

-- The names of the files of results.
unfoldable pub result_names : List Entry → List Str
unfolding is_result
result_names [] = []
result_names (entry ∷ entries) =
    let rest = result_names entries in if is_result entry then entry.name ∷ rest else rest

-- `resultFiles[resultFiles.length - 1]`, which is `none` when there is no file.
abbrev pub last_name : List Str → Option Str
last_name [] = none
last_name (name ∷ []) = some name
last_name (name ∷ other ∷ names) = last_name (other ∷ names)

-- `readFile` and `JSON.parse`.
unfoldable pub read_saved : Str → List Entry → Option Saved
unfolding str_eq
read_saved name [] = none
read_saved name (entry ∷ entries) =
    if str_eq entry.name name then entry.saved else read_saved name entries

-- `'report' in parsed && parsed.report ? parsed.report : parsed`.
abbrev pub report_in : Saved → LoadTestReport
report_in (wrapped raw report threshold) = report
report_in (bare report) = report

abbrev pub report_of : Option Saved → Reply (Unit {0}) LoadTestReport
report_of none = throw tt
report_of (some saved) = ok (report_in saved)

abbrev pub of_latest : List Entry → Option Str → Reply (Unit {0}) LoadTestReport
of_latest entries none = throw tt
of_latest entries (some name) = report_of (read_saved name entries)

-- `readLatestReport`; `none` is an error of `readdir`.
unfoldable pub read_latest_report : Option (List Entry) → Reply (Unit {0}) LoadTestReport
unfolding result_names sort_names read_saved
read_latest_report none = throw tt
read_latest_report (some entries) =
    of_latest entries (last_name (sort_names (result_names entries)))

abbrev pub verdict_code : Reply (Unit {0}) AssertionResult → ℕ
verdict_code (ok assertion) = if assertion.all_passed then 0 else 1
verdict_code (throw e) = 1

abbrev pub asserted : Option Str → Option Str → Mongo → Reply (Unit {0}) LoadTestReport → ℕ
asserted mongo_uri mongo_db_name mongo (ok report) =
    verdict_code (assert_thresholds report mongo_uri mongo_db_name mongo)
asserted mongo_uri mongo_db_name mongo (throw e) = 1

-- The exit code of assert-thresholds.ts as a script.
unfoldable pub assert_script : Option (List Entry) → Option Str → Option Str → Mongo → ℕ
unfolding read_latest_report
assert_script readdir mongo_uri mongo_db_name mongo =
    asserted mongo_uri mongo_db_name mongo (read_latest_report readdir)

-- The folder after a file was written.
unfoldable pub put : Str → Saved → List Entry → List Entry
unfolding str_eq
put name saved [] = record { name = name; is_file = true; saved = some saved } ∷ []
put name saved (entry ∷ entries) =
    if str_eq entry.name name
    then record { name = name; is_file = true; saved = some saved } ∷ entries
    else entry ∷ put name saved entries

-- The file system, as far as the folder of the results goes.
pub record Folder (E : Type 0) : Type 1 where
  pub State : Type 0
  pub entries : State → List Entry
  pub make_folder : State → State × Reply E (Unit {0})
  pub write_file : Str → Saved → State → State × Reply E (Unit {0})
  pub make_folder_keeps :
      (s : State) → Post (λ s' _. entries s' ≡ entries s) (λ _ _. Unit {0}) (make_folder s)
  pub write_file_puts :
      (name : Str) (saved : Saved) (s : State)
      → Post
          (λ s' _. entries s' ≡ put name saved (entries s))
          (λ _ _. Unit {0})
          (write_file name saved s)

module _ (folder : Folder (Unit {0})) where
  abbrev pub from_reply : {A : Type 0} → Reply (Unit {0}) A → Action folder.State (Unit {0}) A
  from_reply r s = (s, r)

  abbrev pub write_results :
      Str
      → LoadTestRawResults
      → LoadTestReport
      → AssertionResult
      → Action folder.State (Unit {0}) (Unit {0})
  write_results path raw report threshold =
      folder.make_folder >> folder.write_file path (wrapped raw report threshold)

  -- The end of `run`, once the events were sent; `path` is the name that it makes of the clock.
  unfoldable pub finish_run :
      LoadTestRawResults
      → Option Str
      → Option Str
      → Mongo
      → Str
      → Action folder.State (Unit {0}) (Unit {0})
  finish_run raw mongo_uri mongo_db_name mongo path = do
    threshold ← from_reply (assert_thresholds (generate_report raw) mongo_uri mongo_db_name mongo)
    write_results path raw (generate_report raw) threshold
