-- ===== src/Jobs/Invariant.antt =====
-- What holds of the runner between two calls.

use arno.Base.{
  ℕ, ◌≤◌, ◌≡◌, ◌≢◌, inl, inr, refl, not, Bool, false, [], ◌∷◌, Option, none, some, Text, text_eq,
  text_eq_iff, arith, if◌then◌else◌, All, All-map, Bool-cases, is_empty, Dict, lookup, insert,
  lookup-insert,
}
use arno.Decimal.{itoa, max_int}
use arno.Decimal.RoundTrip.{itoa-injective}
use arno.Jobs.{
  Status, running, completed, Done, open_channel, closed_channel, Runner, new_runner, job_id, start,
  register, start_once, start_unless, existing, release, close, complete_with_result, is_running,
}

-- The channel that a job of a status has.
abbrev pub channel_of : Option Status → Option Done
channel_of none = none
channel_of (some running) = some open_channel
channel_of (some completed) = some closed_channel

-- No job number from `next` on is in use, a key is kept for running jobs only, and a job's channel
-- is closed exactly when it is completed.
pub record IsRunner (r : Runner) : Type 0 where
  pub fresh : (n : ℕ) → r.next ≤ n → n ≤ max_int → lookup (job_id n) r.status ≡ none
  pub live : All (λ e. lookup e.1 r.status ≡ some running) r.joinable
  pub channels : (id : Text) → lookup id r.done ≡ channel_of (lookup id r.status)

pub new_runner-IsRunner : (bus : Option arno.Events.Bus) → IsRunner (new_runner bus)
new_runner-IsRunner bus =
    unfold lookup in record { fresh = λ n _ _. refl; live = tt; channels = λ id. refl }

job_id-ne : (n m : ℕ) → n ≢ m → n ≤ max_int → m ≤ max_int → text_eq (job_id n) (job_id m) ≡ false
job_id-ne n m ne hn hm = elim (Bool-cases (text_eq (job_id n) (job_id m))) [
  | inl e ↦ absurd (ne (itoa-injective n m hn hm (same ((text_eq_iff _ _).0 e))))
  | inr e ↦ e
]
  where
    same : job_id n ≡ job_id m → itoa n ≡ itoa m
    same e = cc

pub start-IsRunner :
    (kind : Text) (r : Runner) → r.next ≤ max_int → IsRunner r → IsRunner (start kind r).1
start-IsRunner kind r room h =
    unfold start in
    record {
      fresh = λ n le hn.
          rw (lookup-insert, job_id-ne r.next n (omega arith) room hn) (h.fresh n (omega arith) hn);
      live = All-map _ _ (λ e le. rw lookup-insert (ground arith)) r.joinable h.live;
      channels = λ id. rw (lookup-insert, lookup-insert) (ground (arith, h.channels id));
    }

All-insert :
    (P : Text × Text → Type 0) (k v : Text) (m : Dict Text)
    → P (k, v)
    → All P m
    → All P (insert k v m)
unfolding insert
All-insert P k v [] p h = (p, tt)
All-insert P k v ((j, w) ∷ m) p (hj, h) = elim (Bool-cases (text_eq j k)) [
  | inl e ↦ rw e (p, h)
  | inr e ↦ rw e (hj, All-insert P k v m p h)
]

pub register-IsRunner : (key id : Text) (r : Runner) → IsRunner r → IsRunner (register key id r)
register-IsRunner key id r h = unfold register in by_key key
  where
    stored :
        lookup id r.status ≡ some running
        → IsRunner (record r { joinable = insert key id r.joinable })
    stored e = record {
      fresh = h.fresh;
      live = All-insert (λ e. lookup e.1 r.status ≡ some running) key id r.joinable e h.live;
      channels = h.channels;
    }

    by_status :
        (o : Option Status)
        → lookup id r.status ≡ o
        → IsRunner (if is_running o then record r { joinable = insert key id r.joinable } else r)
    by_status none e = h
    by_status (some running) e = stored e
    by_status (some completed) e = h

    by_key :
        (k : Text)
        → IsRunner (
            if not (is_empty k)
            then if is_running (lookup id r.status)
              then record r { joinable = insert key id r.joinable }
              else r
            else r)
    by_key [] = h
    by_key (c ∷ k) = by_status (lookup id r.status) refl

-- `StartOnce` keeps the runner consistent, whether it joins a job or starts one.
pub start_once-IsRunner :
    (kind key : Text) (r : Runner)
    → r.next ≤ max_int
    → IsRunner r
    → IsRunner (start_once kind key r).1
start_once-IsRunner kind key r room h = unfold start_once in by_existing (existing key r)
  where
    by_existing : (o : Option Text) → IsRunner (start_unless kind key r o).1
    by_existing none =
        register-IsRunner key (start kind r).0 (start kind r).1 (start-IsRunner kind r room h)
    by_existing (some id) = h

pub All-release :
    (P : Text × Text → Type 0) (id : Text) (m : Dict Text)
    → All P m
    → All (λ e. P e × (text_eq e.1 id ≡ false)) (release id m)
unfolding release
All-release P id [] h = tt
All-release P id ((k, job) ∷ m) (hk, h) = elim (Bool-cases (text_eq job id)) [
  | inl e ↦ rw e (All-release P id m h)
  | inr e ↦ rw e ((hk, e), All-release P id m h)
]

-- What a channel is after `close`, by what it was.
abbrev pub closes : Option Done → Option Done → Option Done
closes (some open_channel) old = some closed_channel
closes _ old = old

pub lookup-close :
    (id j : Text) (o : Option Done) (m : Dict Done)
    → lookup j (close id o m) ≡ (if text_eq id j then closes o (lookup j m) else lookup j m)
lookup-close id j none m = ground arith
lookup-close id j (some open_channel) m = rw lookup-insert
lookup-close id j (some closed_channel) m = ground arith

-- Completing a job that was started keeps the runner consistent, the second time too.
pub complete-IsRunner :
    (decisive_summary : Text → Text) (id output : Text) (failed : Bool) (r : Runner) (st : Status)
    → lookup id r.status ≡ some st
    → IsRunner r
    → IsRunner (complete_with_result decisive_summary id output failed r)
complete-IsRunner decisive_summary id output failed r st known h =
    unfold complete_with_result in
    record {
      fresh =
          λ n le hn. rw lookup-insert (ground (arith, h.fresh n le hn, text_eq_iff id (job_id n)));
      live =
          All-map _ _
            (λ e le. rw lookup-insert (ground (arith, le, text_eq_iff id e.1, text_eq_iff e.1 id)))
            (release id r.joinable)
            (All-release (λ e. lookup e.1 r.status ≡ some running) id r.joinable h.live);
      channels = λ j.
          rw (lookup-close, lookup-insert)
            (ground (arith, h.channels id, h.channels j, known, text_eq_iff id j));
    }
