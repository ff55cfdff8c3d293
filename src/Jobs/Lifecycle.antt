-- ===== src/Jobs/Lifecycle.antt =====
-- What a caller of the runner sees of a job: joining, waiting and its output.
use mathlib.Core.Path.{subst}
use arno.Base.{
  ◌≡◌, ◌≢◌, ◌↔◌, inl, inr, refl, ap, ◌∙◌, Bool, true, false, [], ◌∷◌, Option, none, some, Text,
  text_eq, text_eq_iff, text_eq_self, arith, All, Bool-cases, is_empty, Dict, lookup, lookup-insert,
}
use arno.Jobs.{
  Status, running, completed, Done, open_channel, closed_channel, Runner, start, register,
  start_once, start_unless, existing, or_zero, complete_with_result, output, output_at, waited,
  finished, wait, clamp_raw_output, job_id,
}
use arno.Jobs.Invariant.{IsRunner, channel_of, lookup-close, complete-IsRunner}

All-lookup :
    (Q : Text → Type 0) (k v : Text) (m : Dict Text)
    → All (λ e. Q e.1) m
    → lookup k m ≡ some v
    → Q v
All-lookup Q k v [] h e = unfold lookup in absurd (empty e)
  where
    empty : lookup k [] ≡ some v → ⊥
    empty e = unfold lookup in cc
All-lookup Q k v ((j, w) ∷ m) (hw, h) e = elim (Bool-cases (text_eq j k)) [
  | inl p ↦ subst Q (first p e) hw
  | inr p ↦ All-lookup Q k v m h (later p e)
]
  where
    first : text_eq j k ≡ true → lookup k ((j, w) ∷ m) ≡ some v → w ≡ v
    first p e = unfold lookup in ground arith

    later : text_eq j k ≡ false → lookup k ((j, w) ∷ m) ≡ some v → lookup k m ≡ some v
    later p e = unfold lookup in ground arith

existing-running :
    (key id : Text) (r : Runner)
    → IsRunner r
    → existing key r ≡ some id
    → lookup id r.status ≡ some running
existing-running [] id r h e = cc
existing-running (c ∷ key) id r h e =
    All-lookup (λ v. lookup v r.status ≡ some running) (c ∷ key) id r.joinable h.live e

-- Whatever `StartOnce` returns is a job that runs, joined or new.
pub start_once-running :
    (kind key : Text) (r : Runner)
    → IsRunner r
    → let result = start_once kind key r in lookup result.0.0 result.1.status ≡ some running
start_once-running kind key r h = unfold start_once in by_existing (existing key r) refl
  where
    registered : (id : Text) (r : Runner) → (register key id r).status ≡ r.status
    registered id r = unfold register in ground arith

    by_existing :
        (o : Option Text)
        → existing key r ≡ o
        → let result = start_unless kind key r o in lookup result.0.0 result.1.status ≡ some running
    by_existing (some id) e = existing-running key id r h e
    by_existing none e =
        rw (registered (start kind r).0 (start kind r).1)
          (unfold start in rw (lookup-insert, text_eq_self (job_id r.next)))

register-existing :
    (key id : Text) (r : Runner)
    → is_empty key ≡ false
    → lookup id r.status ≡ some running
    → existing key (register key id r) ≡ some id
register-existing [] id r ne e = cc
register-existing (c ∷ key) id r ne e =
    unfold register in rw e (rw (lookup-insert, text_eq_self (c ∷ key)))

-- The same run asked for again, before its job completes, joins that job and changes nothing.
pub start_once_again :
    (kind kind' key : Text) (r : Runner)
    → is_empty key ≡ false
    → let (first, r') = start_once kind key r in start_once kind' key r' ≡ ((first.0, true), r')
start_once_again kind kind' key r ne = unfold start_once in by_existing (existing key r) refl
  where
    by_existing :
        (o : Option Text)
        → existing key r ≡ o
        → let (first, r') = start_unless kind key r o in
          start_unless kind' key r' (existing key r') ≡ ((first.0, true), r')
    by_existing (some id) e = rw e
    by_existing none e = rw (
        register-existing key (start kind r).0 (start kind r).1 ne
          (unfold start in rw (lookup-insert, text_eq_self (job_id r.next))))

-- A completed job is never joined again.
pub complete_not_joined :
    (decisive_summary : Text → Text) (kind key id out : Text) (failed : Bool) (r : Runner)
    (st : Status)
    → lookup id r.status ≡ some st
    → IsRunner r
    → let r' = complete_with_result decisive_summary id out failed r in
      (start_once kind key r').0 ≢ (id, true)
complete_not_joined decisive_summary kind key id out failed r st known h =
    unfold start_once in by_existing (existing key done_runner) refl
  where
    done_runner : Runner
    done_runner = complete_with_result decisive_summary id out failed r

    not_running : lookup id done_runner.status ≡ some completed
    not_running = unfold complete_with_result in rw (lookup-insert, text_eq_self id)

    by_existing :
        (o : Option Text)
        → existing key done_runner ≡ o
        → (start_unless kind key done_runner o).0 ≢ (id, true)
    by_existing none e = λ p. cc
    by_existing (some j) e = λ p.
        let running' =
          existing-running key j done_runner
            (complete-IsRunner decisive_summary id out failed r st known h) e in
        ground (arith, running', not_running)

-- `Wait` reports that a job is finished exactly when its status is completed.
pub wait_iff :
    (id : Text) (r : Runner)
    → IsRunner r
    → ((wait id r).1 ≡ true) ↔ (lookup id r.status ≡ some completed)
wait_iff id r h = unfold wait in rw (h.channels id) (by_status (lookup id r.status) refl)
  where
    by_status :
        (o : Option Status)
        → lookup id r.status ≡ o
        → ((waited id r (channel_of o)).1 ≡ true) ↔ (o ≡ some completed)
    by_status none e = unfold output in rw e (λ p. cc, λ p. cc)
    by_status (some running) e = (λ p. cc, λ p. cc)
    by_status (some completed) e = unfold output in rw e (λ p. refl, λ p. refl)

waited-output :
    (j : Text) (r' r : Runner)
    → output j r' ≡ output j r
    → (o : Option Done) → waited j r' o ≡ waited j r o
waited-output j r' r e none = ap finished e
waited-output j r' r e (some closed_channel) = e
waited-output j r' r e (some open_channel) = ap (λ x. (x.0, false)) e

-- After a completion `Wait` answers at once with that completion's verdict, its summary and its
-- clamped output, and every other job's answer is what it was.
pub wait_complete :
    (decisive_summary : Text → Text) (id out : Text) (failed : Bool) (r : Runner) (st : Status)
    → lookup id r.status ≡ some st
    → IsRunner r
    → let r' = complete_with_result decisive_summary id out failed r in
      (wait id r' ≡ (
        record {
          kind = or_zero (lookup id r.kind);
          status = some completed;
          summary = decisive_summary out;
          raw = (clamp_raw_output out).0;
          failed = failed;
          omitted_bytes = (clamp_raw_output out).1;
        },
        true,
      ))
      × ((j : Text) → id ≢ j → wait j r' ≡ wait j r)
wait_complete decisive_summary id out failed r st known h = (
  unfold wait output in
      rw (closed, stopped) (unfold complete_with_result in simp (lookup-insert, text_eq_self)),
  others,
)
  where
    done_runner : Runner
    done_runner = complete_with_result decisive_summary id out failed r

    stopped : lookup id done_runner.status ≡ some completed
    stopped = unfold complete_with_result in rw (lookup-insert, text_eq_self id)

    closed : lookup id done_runner.done ≡ some closed_channel
    closed =
        (complete-IsRunner decisive_summary id out failed r st known h).channels id
        ∙ ap channel_of stopped

    at_status :
        (j : Text)
        → text_eq id j ≡ false
        → (o : Option Status) → output_at j done_runner o ≡ output_at j r o
    at_status j e none = refl
    at_status j e (some st) = unfold complete_with_result in simp (lookup-insert, e)

    others : (j : Text) → id ≢ j → wait j done_runner ≡ wait j r
    others j ne = elim (Bool-cases (text_eq id j)) [
      | inl e ↦ absurd (ne ((text_eq_iff id j).0 e))
      | inr e ↦
          let same_done : lookup j done_runner.done ≡ lookup j r.done =
            unfold complete_with_result in rw (lookup-close, e) in
          let same_status : lookup j done_runner.status ≡ lookup j r.status =
            unfold complete_with_result in rw (lookup-insert, e) in
          let same_output : output j done_runner ≡ output j r =
            unfold output in rw same_status (at_status j e (lookup j r.status)) in
          unfold wait in rw same_done (waited-output j done_runner r same_output (lookup j r.done))
    ]
