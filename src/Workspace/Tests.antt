-- ===== src/Workspace/Tests.antt =====
-- The properties of the workspace at concrete inputs.
use arno.Base.Paths.{clean, clean_parts}
use arno.Decimal.{itoa, digits}
use arno.Base.{
  lookup, insert, has_prefix, split, join, ◌+◌, ◌≤◌, ◌≡◌, refl, true, List, [], ◌∷◌, none, some,
  Text, codes, arith, ltb, length, if◌then◌else◌,
}
use arno.Disk.{read_file, Disk}
use arno.Disk.Atomic.{data_at}
use arno.Workspace.{
  Manager, new_manager, CheckpointSnapshot, mark_changed, path_from_changed_key, before_last_colons,
  bump_revision, changed_since, occurs, revision_string, max_ledger_entries,
}
use arno.Workspace.Checkpoints.{Checkpoint, reverted, capture, checkpoint, revert_checkpoint}
use arno.Workspace.Since.{IsLedger, changed_after, changed_since-occurs, bump_revision-IsLedger}
use arno.Workspace.Tracking.{Kept}
use arno.Workspace.Success.{revert_checkpoint-succeeds}
use arno.Workspace.Revert.{checkpoint-Kept}

abbrev fresh : Manager
fresh = new_manager none

fresh-IsLedger : IsLedger 1 fresh
fresh-IsLedger = record { numbered = tt; latest = refl; bounded = omega arith }

abbrev edited : Manager
edited = (bump_revision (codes "a.go::Main@3" ∷ []) fresh).1

bump_revision-IsLedger_example :
    IsLedger (if ltb max_ledger_entries (length fresh.ledger + 1) then 2 else 1) edited
bump_revision-IsLedger_example =
    bump_revision-IsLedger 1 (codes "a.go::Main@3" ∷ []) fresh fresh-IsLedger

edited-IsLedger : IsLedger 1 edited
edited-IsLedger = bump_revision-IsLedger 1 (codes "a.go::Main@3" ∷ []) fresh fresh-IsLedger

reached : 1 ≤ edited.revision
unfolding bump_revision
reached = omega arith

changed_since-occurs_example :
    (paths : List Text) × (changed_since (revision_string 1) edited ≡ some paths)
    × ((p : Text) → occurs p paths ≡ changed_after p 1 edited.ledger)
changed_since-occurs_example =
    changed_since-occurs 1 1 edited edited-IsLedger (omega arith) (omega arith) reached
      (omega arith)

abbrev disk : Disk Manager
disk = record {
  files = (codes "a.go", record { data_of = codes "package a"; mode = 420 }) ∷ [];
  temp = none;
  faults = [];
  read_faults = [];
  observer = edited;
}

abbrev taken : Disk Manager
taken = (checkpoint (codes "before") (codes "abc") disk).1

abbrev id : Text
id = (checkpoint (codes "before") (codes "abc") disk).0.id

taken-Kept : Kept (λ p. data_at p disk.files) id taken
taken-Kept = checkpoint-Kept (codes "before") (codes "abc") disk refl

abbrev snapshot : CheckpointSnapshot
snapshot = record {
  id = codes "cp-1";
  note = codes "before";
  revision = 2;
  changed = codes "a.go::Main@3" ∷ [];
  files = (codes "a.go", codes "package a") ∷ [];
  prior = [];
  head = codes "abc";
}

taken_found : lookup id taken.observer.ckpts ≡ some snapshot
unfolding checkpoint capture bump_revision mark_changed occurs lookup read_file insert itoa digits
    clean path_from_changed_key has_prefix before_last_colons clean_parts split join
taken_found = refl

taken_faultless : taken.faults ≡ []
unfolding checkpoint capture bump_revision mark_changed occurs lookup read_file
taken_faultless = refl

revert_checkpoint-succeeds_example :
    let (answer, d') = revert_checkpoint (λ _. true) id (codes "abc") taken in
    ((cp : Checkpoint) × (answer ≡ reverted cp))
    × ((p : Text) → data_at p d'.files ≡ data_at p disk.files)
revert_checkpoint-succeeds_example =
    revert_checkpoint-succeeds (λ _. true) (λ p. data_at p disk.files) id (codes "abc") taken
      taken-Kept snapshot taken_found refl (λ _. refl) taken_faultless
