-- ===== src/Jobs/Outcome.antt =====
-- internal/jobs/outcome.go: how a job that was waited on is classified.
use arno.Base.{
  ◌≡◌, ◌↔◌, refl, ◌||◌, not, Bool, true, false, List, [], ◌∷◌, ◌++◌, Text, codes, newline, contains,
  has_prefix, split, trim_space, arith, if◌then◌else◌,
}
use mathlib.Core.Option.{Option}
use arno.Jobs.{JobOutput}

-- internal/protocol/outcome.go
pub data ValidationOutcome : Type 0 where
  passed failed unavailable running timed_out : ValidationOutcome

abbrev pub any : (Text → Bool) → List Text → Bool
any test [] = false
any test (t ∷ ts) = test t || any test ts

abbrev pub killed_marker : Text
killed_marker = codes " and was killed"

abbrev pub missing_markers : List Text
missing_markers =
    codes "exit status 127"
    ∷ codes "executable file not found"
    ∷ codes "no validation command configured"
    ∷ []

unfoldable pub not_installed : Text → Bool
not_installed text = any (contains text) missing_markers

abbrev pub failure_prefixes : List Text
failure_prefixes =
    codes "--- FAIL"
    ∷ codes "FAIL\t"
    ∷ codes "FAIL "
    ∷ codes "FAIL:"
    ∷ codes "FAILED"
    ∷ codes "panic:"
    ∷ []

-- One line of `hasFailureMarkers`, trimmed.
unfoldable pub is_failure_line : Text → Bool
is_failure_line line =
    any (has_prefix line) failure_prefixes
    || (contains line (codes "undefined:") || contains line (codes "cannot find package"))

unfoldable pub has_failure_markers : Text → Bool
has_failure_markers text = any (λ line. is_failure_line (trim_space line)) (split newline text)

abbrev pub text_of : JobOutput → Text
text_of out = out.summary ++ (newline ∷ out.raw)

unfoldable pub outcome : JobOutput → Bool → ValidationOutcome
outcome out finished =
    if not finished
    then timed_out
    else if contains (text_of out) killed_marker
    then timed_out
    else if not_installed (text_of out)
    then unavailable
    else if out.failed || has_failure_markers (text_of out)
    then failed
    else passed

-- Only a run that finished, was not killed, ran its command, exited zero and printed no line that a
-- failing run prints is a pass; nothing else is.
pub outcome-passed_iff :
    (out : JobOutput) (finished : Bool)
    → (outcome out finished ≡ passed) ↔ (
        (finished ≡ true)
        × (contains (text_of out) killed_marker ≡ false)
        × (not_installed (text_of out) ≡ false)
        × (out.failed ≡ false)
        × (has_failure_markers (text_of out) ≡ false))
unfolding outcome
outcome-passed_iff out finished = ground arith

-- A run that failed by its exit status is never a pass, whatever it printed, and it is called
-- failed unless it was killed or its command is missing.
pub outcome_of_failed :
    (out : JobOutput)
    → out.failed ≡ true
    → outcome out true ≡ (
        if contains (text_of out) killed_marker
        then timed_out
        else if not_installed (text_of out)
        then unavailable
        else failed)
unfolding outcome
outcome_of_failed out h = ground arith

abbrev cheerful : JobOutput
cheerful = record {
  kind = codes "check:lint";
  status = Option.none;
  summary = codes "everything looks fine";
  raw = codes "everything looks fine\nexit status 3";
  failed = true;
  omitted_bytes = 0;
}

abbrev green_suite : JobOutput
green_suite = record cheerful {
  summary = codes "ok";
  raw = codes "Error: if any flags in the group\nok cobra 0.3s";
  failed = false;
}

outcome_runs :
    (outcome cheerful true ≡ failed)
    × (outcome green_suite true ≡ passed)
    × (outcome (record green_suite { raw = codes "  --- FAIL: TestA" }) true ≡ failed)
    × (outcome (record cheerful { raw = codes "sh: exit status 127" }) true ≡ unavailable)
    × (outcome green_suite false ≡ timed_out)
unfolding outcome not_installed has_failure_markers is_failure_line contains has_prefix split
    trim_space
outcome_runs = (refl, refl, refl, refl, refl)
