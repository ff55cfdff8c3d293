-- ===== src/Jobs.antt =====
-- internal/jobs/runner.go: asynchronous validation jobs. A command runs outside the model; what it
-- printed and whether it failed are the arguments of the completion. `DecisiveSummary` of
-- internal/diagnostics is an argument of the operations that call it.
pub mod Tests
pub mod Outcome
pub mod Lifecycle
pub mod Invariant
use arno.Base.{
  ℕ, suc, ◌+◌, ◌^◌, not, Bool, true, false, List, [], ◌∷◌, ◌++◌, Option, none, some, Text, codes,
  text_eq, if◌then◌else◌, GoInt, nat, is_empty, Dict, lookup, insert,
}
use arno.Decimal.{itoa}
use arno.Events.{Event, Bus, publish}
use arno.Clamp.{clamp}

-- `running` and `completed` are the two strings that the status map holds.
pub data Status : Type 0 where
  running completed : Status

-- A `done` channel that is open, or closed.
pub data Done : Type 0 where
  open_channel closed_channel : Done

pub record Runner : Type 0 where
  pub next : ℕ
  pub kind : Dict Text
  pub status : Dict Status
  pub summary : Dict Text
  pub raw : Dict Text
  pub omitted : Dict ℕ
  pub full : Dict Text
  pub failed : Dict Bool
  pub done : Dict Done
  pub joinable : Dict Text  -- the field `running`: a run's key, and the job that executes it
  pub bus : Option Bus

abbrev pub new_runner : Option Bus → Runner
new_runner bus = record {
  next = 1;
  kind = [];
  status = [];
  summary = [];
  raw = [];
  omitted = [];
  full = [];
  failed = [];
  done = [];
  joinable = [];
  bus = bus;
}

abbrev pub job_id : ℕ → Text
job_id n = codes "job-" ++ itoa n

abbrev pub publish_to : Event → Option Bus → Option Bus
publish_to e none = none
publish_to e (some b) = some (publish e b)

abbrev job_event : Text → List (Text × Text) → Event
job_event type payload = record { type = type; entity = codes "job"; payload = payload }

unfoldable pub start : Text → Runner → Text × Runner
start kind r =
    let id = job_id r.next in
    (
      id,
      record r {
        next = r.next + 1;
        kind = insert id kind r.kind;
        status = insert id running r.status;
        done = insert id open_channel r.done;
        bus =
            publish_to
              (job_event (codes "JOB_STARTED") ((codes "id", id) ∷ (codes "kind", kind) ∷ []))
              r.bus;
      },
    )

abbrev pub is_running : Option Status → Bool
is_running (some running) = true
is_running _ = false

-- The second locked section of `StartOnce`.
unfoldable pub register : Text → Text → Runner → Runner
register key id r =
    if not (is_empty key)
    then if is_running (lookup id r.status)
      then record r { joinable = insert key id r.joinable }
      else r
    else r

-- `if existing, ok := r.running[key]; ok && key != ""`
abbrev pub existing : Text → Runner → Option Text
existing key r = if is_empty key then none else lookup key r.joinable

abbrev pub started : Text → Text × Runner → (Text × Bool) × Runner
started key (id, r) = ((id, false), register key id r)

abbrev pub start_unless : Text → Text → Runner → Option Text → (Text × Bool) × Runner
start_unless kind key r (some id) = ((id, true), r)
start_unless kind key r none = started key (start kind r)

-- `StartOnce` without another call between its locked sections: the job's id, and whether it was
-- joined.
unfoldable pub start_once : Text → Text → Runner → (Text × Bool) × Runner
start_once kind key r = start_unless kind key r (existing key r)

unfoldable pub validation_key : Text → Text → Text → Text
validation_key dir kind revision =
    codes "validate|" ++ (dir ++ (codes "|" ++ (kind ++ (codes "|" ++ revision))))

-- `for key, running := range r.running { if running == id { delete(r.running, key) } }`
unfoldable pub release : Text → Dict Text → Dict Text
release id [] = []
release id ((key, job) ∷ m) =
    let rest = release id m in if text_eq job id then rest else (key, job) ∷ rest

abbrev pub or_zero : Option Text → Text
or_zero none = []
or_zero (some t) = t

-- `close(done)`, unless the channel is nil or closed already.
abbrev pub close : Text → Option Done → Dict Done → Dict Done
close id (some open_channel) m = insert id closed_channel m
close id _ m = m

abbrev raw_hint : Text
raw_hint = codes "re-run with a narrower scope to see the middle"

abbrev pub max_raw_output_bytes : ℕ
max_raw_output_bytes = 8000

abbrev pub max_stored_output_bytes : ℕ
max_stored_output_bytes = 2 ^ 20

unfoldable pub clamp_raw_output : Text → Text × ℕ
clamp_raw_output output = clamp output (nat max_raw_output_bytes) raw_hint

unfoldable pub stored_raw_output : Text → Text
stored_raw_output output = (clamp output (nat max_stored_output_bytes) raw_hint).0

module _ (decisive_summary : Text → Text) where
  unfoldable pub complete_with_result : Text → Text → Bool → Runner → Runner
  complete_with_result id output failed r =
      let summary = decisive_summary output in
      let (clamped, omitted) = clamp_raw_output output in
      record r {
        status = insert id completed r.status;
        summary = insert id summary r.summary;
        raw = insert id clamped r.raw;
        full = insert id (stored_raw_output output) r.full;
        omitted = insert id omitted r.omitted;
        failed = insert id failed r.failed;
        joinable = release id r.joinable;
        done = close id (lookup id r.done) r.done;
        bus =
            publish_to
              (job_event (codes "JOB_COMPLETED") (
                (codes "id", id)
                ∷ (codes "kind", or_zero (lookup id r.kind))
                ∷ (codes "summary", summary)
                ∷ []))
              r.bus;
      }

  unfoldable pub complete_with_output : Text → Text → Runner → Runner
  complete_with_output id output r = complete_with_result id output false r

pub record JobOutput : Type 0 where
  pub kind : Text
  pub status : Option Status  -- `none` is the zero value, ""
  pub summary : Text
  pub raw : Text
  pub failed : Bool
  pub omitted_bytes : ℕ

abbrev pub no_output : JobOutput
no_output = record {
  kind = [];
  status = none;
  summary = [];
  raw = [];
  failed = false;
  omitted_bytes = 0;
}

abbrev pub or_false : Option Bool → Bool
or_false none = false
or_false (some b) = b

abbrev pub or_none : Option ℕ → ℕ
or_none none = 0
or_none (some n) = n

abbrev pub output_at : Text → Runner → Option Status → JobOutput × Bool
output_at id r none = (no_output, false)
output_at id r (some status) = (
  record {
    kind = or_zero (lookup id r.kind);
    status = some status;
    summary = or_zero (lookup id r.summary);
    raw = or_zero (lookup id r.raw);
    failed = or_false (lookup id r.failed);
    omitted_bytes = or_none (lookup id r.omitted);
  },
  true,
)

unfoldable pub output : Text → Runner → JobOutput × Bool
output id r = output_at id r (lookup id r.status)

-- `Status`: the kind, the status and the summary of a job that is known.
unfoldable pub status : Text → Runner → Option (Text × Status × Text)
status id r = elim (lookup id r.status) [
  | none ↦ none
  | some st ↦ some (or_zero (lookup id r.kind), st, or_zero (lookup id r.summary))
]

unfoldable pub full_output : Text → Runner → Option Text
full_output id r = lookup id r.full

abbrev pub is_completed : Option Status → Bool
is_completed (some completed) = true
is_completed _ = false

abbrev pub finished : JobOutput × Bool → JobOutput × Bool
finished (out, found) = (out, if found then is_completed out.status else false)

abbrev pub waited : Text → Runner → Option Done → JobOutput × Bool
waited id r none = finished (output id r)
waited id r (some closed_channel) = output id r
waited id r (some open_channel) = ((output id r).0, false)

-- `Wait`, on the runner as it stands when the channel closes or the timeout elapses. Where both
-- have happened Go's `select` may take either; this takes the closed channel.
unfoldable pub wait : Text → Runner → JobOutput × Bool
wait id r = waited id r (lookup id r.done)
