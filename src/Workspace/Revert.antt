-- ===== src/Workspace/Revert.antt =====
-- Taking a checkpoint and reverting to it.
use mathlib.Core.Path.{subst}
use arno.Decimal.{itoa}
use arno.Base.{
  codes, ◌++◌, ◌+◌, ◌≡◌, ◌⊎◌, refl, sym, ap, ◌∙◌, Bool, true, false, List, [], ◌∷◌, Option, none,
  some, Text, text_eq, text_eq_iff, text_eq_self, if◌then◌else◌, Dict, lookup, insert,
  lookup-insert, Bool-cases, inl, inr, Distinct, insert-Distinct,
}
use arno.Disk.Restores.{GaveUp}
use arno.Disk.{Disk, Node, Change, read_file, read_node, write_files, FilesError, not_restored}
use arno.Disk.Atomic.{data_in, data_at}
use arno.Disk.Batch.{AllOrNone, all, none_of_them, unread, broken}
use arno.Disk.Files.{write_files-AllOrNone}
use arno.Events.{Bus, Event}
use arno.Workspace.{Manager, CheckpointSnapshot, PriorState, path_from_changed_key, emit}
use arno.Workspace.Checkpoints.{
  Checkpoint, Reverted, reverted, not_reverted, RevertError, moved_past_checkpoint,
  did_not_complete, before_write, is_some, revert_changes, first_refused, after_files,
  revert_resolved, revert_checkpoint, capture, captured_as, checkpoint,
}
use arno.Workspace.Tracking.{known, Kept}
use arno.Workspace.Restore.{final-at_checkpoint}

-- How a revert ends. `back`: every path holds what it held at the checkpoint. `as_before`: the
-- revert is refused or fails, and every path holds what it held before it. `half`: a write failed,
-- and the error names the files that could not be put back; every other path holds what it held.
pub data Ends (at_checkpoint : Text → Option Text) (start : Dict Node)
    : Reverted × Disk Manager → Type 0 where
  back :
      (cp : Checkpoint) (d : Disk Manager)
      → ((p : Text) → data_at p d.files ≡ at_checkpoint p)
      → Ends at_checkpoint start (reverted cp, d)
  as_before :
      (e : RevertError) (d : Disk Manager)
      → ((p : Text) → data_at p d.files ≡ data_at p start)
      → Ends at_checkpoint start (not_reverted e, d)
  half :
      (changes : List Change) (id path first : Text) (failed : List Text) (d : Disk Manager)
      → GaveUp before_write start changes path (first ∷ failed) d
      → Ends at_checkpoint start
          (not_reverted (did_not_complete id (not_restored path (first ∷ failed))), d)

-- A revert to a checkpoint that tracks the files puts back what every path held when the checkpoint
-- was taken: a file edited since, one deleted since and one created since. If it cannot, no path's
-- data has changed, unless a restore failed as well: then the error names the files whose restore
-- failed, and no other path's data has changed.
pub revert_checkpoint-Ends :
    (resolves : Text → Bool) (at_checkpoint : Text → Option Text) (id head : Text)
    (d : Disk Manager)
    → Kept at_checkpoint id d
    → Ends at_checkpoint d.files (revert_checkpoint resolves id head d)
revert_checkpoint-Ends resolves at_checkpoint id head d k =
    unfold revert_checkpoint in rw k.found (by_head (text_eq k.snapshot.head head))
  where
    by_files :
        (r : Option FilesError × Disk Manager)
        → AllOrNone before_write d.files (revert_changes k.snapshot) r
        → Ends at_checkpoint d.files (after_files id k.snapshot r)
    by_files _ (all d' at) = back _ _ (λ p. at p ∙ final-at_checkpoint at_checkpoint id d k p)
    by_files _ (none_of_them path written d' left e at) = as_before _ d' at
    by_files _ (unread path d' same) = as_before _ d' (λ p. ap (data_at p) same)
    by_files _ (broken path first failed d' b) = half _ id path first failed d' b

    by_refusal : (o : Option Text) → Ends at_checkpoint d.files (revert_resolved id k.snapshot d o)
    by_refusal (some path) = as_before _ d (λ p. refl)
    by_refusal none =
        by_files (write_files before_write (revert_changes k.snapshot) d)
          (write_files-AllOrNone before_write (revert_changes k.snapshot) d)

    by_head :
        (b : Bool)
        → Ends at_checkpoint d.files (
            if b
            then revert_resolved id k.snapshot d
                (first_refused resolves (revert_changes k.snapshot))
            else (not_reverted (moved_past_checkpoint id k.snapshot.head head), d))
    by_head true = by_refusal (first_refused resolves (revert_changes k.snapshot))
    by_head false = as_before _ d (λ p. refl)

-- What the capture of a checkpoint reads: a path's data, or nothing.
record IsCapture (d : Disk Manager) (r : Dict Text × Disk Manager) : Type 0 where
  files_same : r.1.files ≡ d.files
  observer_same : r.1.observer ≡ d.observer
  readable : r.1.read_faults ≡ []
  once : Distinct r.0
  exact : (p : Text) → (lookup p r.0 ≡ none) ⊎ (lookup p r.0 ≡ data_at p d.files)

capture-cons :
    (key : Text) (keys : List Text) (files : Dict Text) (d : Disk Manager)
    → d.read_faults ≡ []
    → capture (key ∷ keys) files d ≡ (
        let path = path_from_changed_key key in
        if is_some (lookup path files)
        then capture keys files d
        else capture keys
            (captured_as path (read_node (lookup path d.files)) files)
            (record d { read_faults = [] }))
unfolding capture read_file
capture-cons key keys files d readable = rw readable refl

captured-Exact :
    (path : Text) (files : Dict Text) (now : Dict Node) (n : Option Node)
    → lookup path now ≡ n
    → Distinct files
    → ((p : Text) → (lookup p files ≡ none) ⊎ (lookup p files ≡ data_at p now))
    → Distinct (captured_as path (read_node n) files)
      × ((p : Text)
          → (lookup p (captured_as path (read_node n) files) ≡ none)
            ⊎ (lookup p (captured_as path (read_node n) files) ≡ data_at p now))
captured-Exact path files now none e h exact = (h, exact)
captured-Exact path files now (some n) e h exact = (insert-Distinct path n.data_of files h, at)
  where
    at :
        (p : Text)
        → (lookup p (insert path n.data_of files) ≡ none)
          ⊎ (lookup p (insert path n.data_of files) ≡ data_at p now)
    at p = elim (Bool-cases (text_eq path p)) [
      | inr ne ↦ rw (lookup-insert, ne) (exact p)
      | inl same ↦ inr (
          rw (lookup-insert, same)
            (subst (λ q. some n.data_of ≡ data_at q now) ((text_eq_iff path p).0 same)
              (sym (ap data_in e))))
    ]

capture-IsCapture :
    (keys : List Text) (files : Dict Text) (d : Disk Manager)
    → d.read_faults ≡ []
    → Distinct files
    → ((p : Text) → (lookup p files ≡ none) ⊎ (lookup p files ≡ data_at p d.files))
    → IsCapture d (capture keys files d)
capture-IsCapture [] files d readable h exact =
    unfold capture in
    record { files_same = refl; observer_same = refl; readable = readable; once = h; exact = exact }
capture-IsCapture (key ∷ keys) files d readable h exact =
    let path = path_from_changed_key key in
    let next = captured-Exact path files d.files (lookup path d.files) refl h exact in
    let seen = capture-IsCapture keys files d readable h exact in
    let read =
      capture-IsCapture keys (captured_as path (read_node (lookup path d.files)) files)
        (record d { read_faults = [] }) refl next.0 next.1 in
    rw (capture-cons key keys files d readable) (elim (Bool-cases (is_some (lookup path files))) [
      | inl e ↦ rw e seen
      | inr e ↦ rw e (record {
        files_same = read.files_same;
        observer_same = read.observer_same;
        readable = read.readable;
        once = read.once;
        exact = read.exact;
      })
    ])

emit-ckpts : (e : Event) (m : Manager) (b : Option Bus) → (emit e m b).ckpts ≡ m.ckpts
emit-ckpts e m none = refl
emit-ckpts e m (some b) = refl

lookup-nil : (p : Text) → lookup {V = PriorState} p [] ≡ none
unfolding lookup
lookup-nil p = refl

-- The snapshot that a checkpoint keeps.
abbrev taken : Text → Text → Disk Manager → CheckpointSnapshot
taken note head d = record {
  id = codes "cp-" ++ itoa (d.observer.ckpt_seq + 1);
  note = note;
  revision = d.observer.revision;
  changed = d.observer.changed;
  files = (capture d.observer.changed [] d).0;
  prior = [];
  head = head;
}

-- Where reads do not fail, a checkpoint that was just taken tracks the files as they are.
pub checkpoint-Kept :
    (note head : Text) (d : Disk Manager)
    → d.read_faults ≡ []
    → let (cp, d') = checkpoint note head d in Kept (λ p. data_at p d.files) cp.id d'
checkpoint-Kept note head d readable =
    let c =
      capture-IsCapture d.observer.changed [] d readable tt (λ p. inl (unfold lookup in refl)) in
    unfold checkpoint in
    record {
      snapshot = taken note head d;
      found = rw emit-ckpts (rw (lookup-insert, text_eq_self) refl);
      tracks = λ p. tracked _ _ _ _ (lookup-nil p) (c.exact p) (ap (data_at p) c.files_same);
      readable = c.readable;
      files_once = c.once;
      prior_once = tt;
    }
  where
    tracked :
        (o now now' : Option Text) (q : Option PriorState)
        → q ≡ none
        → (o ≡ none) ⊎ (o ≡ now)
        → now' ≡ now
        → known o q now' ≡ now
    tracked o now now' q eq (inl e) same = rw (e, eq) same
    tracked o none now' q eq (inr e) same = rw (e, eq) same
    tracked o (some bytes) now' q eq (inr e) same = rw e refl
