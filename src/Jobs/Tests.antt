-- ===== src/Jobs/Tests.antt =====
-- The properties of the job runner at concrete inputs.
use arno.Decimal.{itoa, digits}
use arno.Base.{
  insert, contains, ◌≡◌, ◌≢◌, ◌↔◌, refl, true, false, none, some, Text, codes, arith, lookup,
}
use arno.Jobs.{
  Runner, JobOutput, new_runner, running, completed, start, register, start_once,
  complete_with_result, wait, clamp_raw_output,
}
use arno.Jobs.Invariant.{IsRunner, new_runner-IsRunner, start_once-IsRunner, complete-IsRunner}
use arno.Jobs.Lifecycle.{complete_not_joined, wait_iff, wait_complete}
use arno.Jobs.Outcome.{
  outcome, outcome-passed_iff, passed, killed_marker, text_of, not_installed, has_failure_markers,
}

abbrev summary : Text → Text
summary output = codes "summary"

abbrev green_suite : JobOutput
green_suite = record {
  kind = codes "check:test";
  status = some completed;
  summary = codes "ok";
  raw = codes "Error: if any flags in the group\nok cobra 0.3s";
  failed = false;
  omitted_bytes = 0;
}

abbrev key : Text
key = codes "validate|.|test|r1"

abbrev idle : Runner
idle = new_runner none

abbrev busy : Runner
busy = (start_once (codes "test") key idle).1

idle-IsRunner : IsRunner idle
idle-IsRunner = new_runner-IsRunner none

busy-IsRunner : IsRunner busy
busy-IsRunner = start_once-IsRunner (codes "test") key idle (omega arith) idle-IsRunner

busy_running : lookup (codes "job-1") busy.status ≡ some running
unfolding lookup start_once start register insert itoa digits
busy_running = refl

complete-IsRunner_example :
    IsRunner (complete_with_result summary (codes "job-1") (codes "ok") false busy)
complete-IsRunner_example =
    complete-IsRunner summary (codes "job-1") (codes "ok") false busy running busy_running
      busy-IsRunner

complete_not_joined_example :
    (start_once
      (codes "test")
      key
      (complete_with_result summary (codes "job-1") (codes "ok") false busy)).0
    ≢ (codes "job-1", true)
complete_not_joined_example =
    complete_not_joined summary (codes "test") key (codes "job-1") (codes "ok") false busy running
      busy_running busy-IsRunner

wait_iff_example :
    ((wait (codes "job-1") busy).1 ≡ true) ↔ (lookup (codes "job-1") busy.status ≡ some completed)
wait_iff_example = wait_iff (codes "job-1") busy busy-IsRunner

wait_complete_example :
    (wait (codes "job-1") (complete_with_result summary (codes "job-1") (codes "ok") false busy) ≡ (
      record {
        kind = codes "test";
        status = some completed;
        summary = codes "summary";
        raw = (clamp_raw_output (codes "ok")).0;
        failed = false;
        omitted_bytes = (clamp_raw_output (codes "ok")).1;
      },
      true,
    ))
    × ((j : Text)
        → codes "job-1" ≢ j
        → wait j (complete_with_result summary (codes "job-1") (codes "ok") false busy)
          ≡ wait j busy)
unfolding lookup start_once start register insert itoa digits
wait_complete_example =
    wait_complete summary (codes "job-1") (codes "ok") false busy running busy_running busy-IsRunner

outcome-passed_iff_example : (outcome green_suite true ≡ passed) ↔ (
    (true ≡ true)
    × (contains (text_of green_suite) killed_marker ≡ false)
    × (not_installed (text_of green_suite) ≡ false)
    × (green_suite.failed ≡ false)
    × (has_failure_markers (text_of green_suite) ≡ false))
outcome-passed_iff_example = outcome-passed_iff green_suite true
