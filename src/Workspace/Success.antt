-- ===== src/Workspace/Success.antt =====
-- When a revert is made.
use arno.Base.{◌≡◌, refl, Bool, true, List, [], ◌∷◌, Option, none, some, Text, text_eq_iff, lookup}
use arno.Disk.{Disk, Change, FilesError, write_files}
use arno.Disk.Atomic.{data_at}
use arno.Disk.Success.{write_files-succeeds}
use arno.Workspace.{Manager, CheckpointSnapshot}
use arno.Workspace.Checkpoints.{
  Checkpoint, Reverted, reverted, not_reverted, RevertError, before_write, revert_changes,
  first_refused, after_files, revert_checkpoint,
}
use arno.Workspace.Tracking.{Kept}
use arno.Workspace.Revert.{Ends, back, as_before, half, revert_checkpoint-Ends}

first_refused-none :
    (resolves : Text → Bool) (cs : List Change)
    → ((p : Text) → resolves p ≡ true)
    → first_refused resolves cs ≡ none
unfolding first_refused
first_refused-none resolves [] h = refl
first_refused-none resolves (c ∷ cs) h = rw (h c.path) (first_refused-none resolves cs h)

pub not_made : (e : RevertError) (cp : Checkpoint) → not_reverted e ≡ reverted cp → ⊥
not_made e cp m = cc

head_same :
    (s t : CheckpointSnapshot) (head : Text) (o : Option CheckpointSnapshot)
    → o ≡ some s
    → o ≡ some t
    → t.head ≡ head
    → s.head ≡ head
head_same s t head o e e' h = cc

-- A revert at the commit of its checkpoint, with every path inside the workspace and no failing
-- operation, is made, and every path holds what it held when the checkpoint was taken.
pub revert_checkpoint-succeeds :
    (resolves : Text → Bool) (at_checkpoint : Text → Option Text) (id head : Text)
    (d : Disk Manager)
    → Kept at_checkpoint id d
    → (s : CheckpointSnapshot) → lookup id d.observer.ckpts ≡ some s
    → s.head ≡ head
    → ((p : Text) → resolves p ≡ true)
    → d.faults ≡ []
    → let (answer, d') = revert_checkpoint resolves id head d in
      ((cp : Checkpoint) × (answer ≡ reverted cp))
      × ((p : Text) → data_at p d'.files ≡ at_checkpoint p)
revert_checkpoint-succeeds resolves at_checkpoint id head d k s found same inside faultless =
    settled (revert_checkpoint resolves id head d)
      (revert_checkpoint-Ends resolves at_checkpoint id head d k) made
  where
    is_made :
        (r : Option FilesError × Disk Manager)
        → r.0 ≡ none
        → (cp : Checkpoint) × ((after_files id k.snapshot r).0 ≡ reverted cp)
    is_made (none, d') e = (_, refl)
    is_made (some x, d') e = absurd (failed e)
      where
        failed : some x ≡ none → ⊥
        failed e = cc

    made : (cp : Checkpoint) × ((revert_checkpoint resolves id head d).0 ≡ reverted cp)
    made =
        unfold revert_checkpoint in
        rw
          (
            k.found,
            (text_eq_iff k.snapshot.head head).1 (head_same k.snapshot s head _ k.found found same),
            first_refused-none resolves (revert_changes k.snapshot) inside,
          )
          (is_made (write_files before_write (revert_changes k.snapshot) d)
            (write_files-succeeds before_write (revert_changes k.snapshot) d faultless
              k.readable).0)

    settled :
        (r : Reverted × Disk Manager)
        → Ends at_checkpoint d.files r
        → (cp : Checkpoint) × (r.0 ≡ reverted cp)
        → ((cp : Checkpoint) × (r.0 ≡ reverted cp))
          × ((p : Text) → data_at p r.1.files ≡ at_checkpoint p)
    settled _ (back cp d' at) m = (m, at)
    settled _ (as_before e d' at) (cp, m) = absurd (not_made e cp m)
    settled _ (half cs i p f fs d' b) (cp, m) = absurd (not_made _ cp m)
