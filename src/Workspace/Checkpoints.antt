-- ===== src/Workspace/Checkpoints.antt =====
-- Checkpoints: `beforeWrite`, `Checkpoint` and `RevertCheckpoint`. The manager observes the writes
-- of the disk. Git's HEAD and whether `pathguard.Resolve` admits a path are arguments.
use arno.Base.{
  ◌+◌, Bool, true, false, not, List, [], ◌∷◌, ◌++◌, Option, none, some, Text, codes, text_eq,
  if◌then◌else◌, Dict, lookup, insert,
}
use arno.Base.Sort.{sort_by}
use arno.Decimal.{itoa}
use arno.Disk.{
  Disk, Read, contents, missing, unreadable, Change, FilesError, read_file, write_files,
}
use arno.Workspace.{
  Manager, CheckpointSnapshot, PriorState, path_from_changed_key, revision_string, sorted, emit,
  workspace_event,
}

pub record Checkpoint : Type 0 where
  pub id : Text
  pub note : Text
  pub revision : Text
  pub paths : List Text
  pub head : Text

abbrev pub is_some : {V : Type 0} → Option V → Bool
is_some none = false
is_some (some v) = true

-- One snapshot, told of a write: a path that it holds already keeps what it holds.
abbrev pub noting : Text → PriorState → CheckpointSnapshot → CheckpointSnapshot
noting rel state snapshot =
    if is_some (lookup rel snapshot.files)
    then snapshot
    else if is_some (lookup rel snapshot.prior)
    then snapshot
    else record snapshot { prior = insert rel state snapshot.prior }

unfoldable pub note_all :
    (CheckpointSnapshot → CheckpointSnapshot) → Dict CheckpointSnapshot → Dict CheckpointSnapshot
note_all f [] = []
note_all f ((id, snapshot) ∷ ckpts) = (id, f snapshot) ∷ note_all f ckpts

unfoldable pub before_write : Text → Read → Manager → Manager
before_write rel unreadable m = m
before_write rel missing m = record m {
  ckpts = note_all (noting rel (record { data_of = []; existed = false })) m.ckpts;
}
before_write rel (contents bytes) m = record m {
  ckpts = note_all (noting rel (record { data_of = bytes; existed = true })) m.ckpts;
}

abbrev pub captured_as : Text → Read → Dict Text → Dict Text
captured_as path (contents bytes) files = insert path bytes files
captured_as path _ files = files

-- `for key := range m.changed`: what the changed paths hold.
unfoldable pub capture : List Text → Dict Text → Disk Manager → Dict Text × Disk Manager
capture [] files d = (files, d)
capture (key ∷ keys) files d =
    let path = path_from_changed_key key in
    let seen = capture keys files d in
    let (r, d') = read_file path d in
    let read = capture keys (captured_as path r files) d' in
    if is_some (lookup path files) then seen else read

abbrev pub checkpoint_of : CheckpointSnapshot → Text → Checkpoint
checkpoint_of s revision = record {
  id = s.id;
  note = s.note;
  revision = revision;
  paths = sorted s.changed;
  head = s.head;
}

unfoldable pub checkpoint : Text → Text → Disk Manager → Checkpoint × Disk Manager
checkpoint note head d =
    let m = d.observer in
    let seq = m.ckpt_seq + 1 in
    let id = codes "cp-" ++ itoa seq in
    let (files, d') = capture m.changed [] d in
    let snapshot : CheckpointSnapshot = record {
      id = id;
      note = note;
      revision = m.revision;
      changed = m.changed;
      files = files;
      prior = [];
      head = head;
    } in
    let m' = record m { ckpt_seq = seq; ckpts = insert id snapshot m.ckpts } in
    let event = workspace_event (codes "CHECKPOINT_CREATED") (
      (codes "id", id)
      ∷ (codes "revision", revision_string m.revision)
      ∷ (codes "note", note)
      ∷ []) in
    (
      checkpoint_of snapshot (revision_string m.revision),
      record d' { observer = emit event m' m'.bus },
    )

pub data RevertError : Type 0 where
  checkpoint_not_found : Text → RevertError
  moved_past_checkpoint : (id taken_at now : Text) → RevertError
  path_refused : (id path : Text) → RevertError
  did_not_complete : (id : Text) → FilesError → RevertError

pub data Reverted : Type 0 where
  reverted : Checkpoint → Reverted
  not_reverted : RevertError → Reverted

unfoldable pub file_changes : Dict Text → List Change
file_changes [] = []
file_changes ((path, bytes) ∷ files) =
    record { path = path; data_of = bytes; removes = false } ∷ file_changes files

unfoldable pub prior_changes : Dict Text → Dict PriorState → List Change
prior_changes files [] = []
prior_changes files ((path, state) ∷ prior) =
    let rest = prior_changes files prior in
    if is_some (lookup path files)
    then rest
    else record { path = path; data_of = state.data_of; removes = not state.existed } ∷ rest

abbrev pub path_of : Change → Text
path_of c = c.path

-- What a revert writes, sorted by path.
abbrev pub revert_changes : CheckpointSnapshot → List Change
revert_changes s = sort_by path_of (file_changes s.files ++ prior_changes s.files s.prior)

-- The first path that `pathguard.Resolve` refuses.
unfoldable pub first_refused : (Text → Bool) → List Change → Option Text
first_refused resolves [] = none
first_refused resolves (c ∷ cs) =
    let rest = first_refused resolves cs in if resolves c.path then rest else some c.path

-- What follows the writes.
abbrev pub reset : CheckpointSnapshot → Manager → Manager
reset s m = record m { revision = m.revision + 1; changed = s.changed }

abbrev pub after_files :
    Text → CheckpointSnapshot → Option FilesError × Disk Manager → Reverted × Disk Manager
after_files id s (some e, d) = (not_reverted (did_not_complete id e), d)
after_files id s (none, d) =
    let m = reset s d.observer in
    let revision = revision_string m.revision in
    let event =
      workspace_event (codes "CHECKPOINT_RESTORED")
        ((codes "id", s.id) ∷ (codes "revision", revision) ∷ []) in
    (reverted (checkpoint_of s revision), record d { observer = emit event m m.bus })

abbrev pub revert_resolved :
    Text → CheckpointSnapshot → Disk Manager → Option Text → Reverted × Disk Manager
revert_resolved id s d (some path) = (not_reverted (path_refused id path), d)
revert_resolved id s d none = after_files id s (write_files before_write (revert_changes s) d)

abbrev pub revert_found :
    (Text → Bool) → Text → Text → Disk Manager → Option CheckpointSnapshot → Reverted × Disk Manager
revert_found resolves id head d none = (not_reverted (checkpoint_not_found id), d)
revert_found resolves id head d (some s) =
    if text_eq s.head head
    then revert_resolved id s d (first_refused resolves (revert_changes s))
    else (not_reverted (moved_past_checkpoint id s.head head), d)

unfoldable pub revert_checkpoint :
    (Text → Bool) → Text → Text → Disk Manager → Reverted × Disk Manager
revert_checkpoint resolves id head d = revert_found resolves id head d (lookup id d.observer.ckpts)
