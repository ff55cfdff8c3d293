-- ===== src/Service/Apply.antt =====
-- internal/edit/apply.go: several edits as one unit. A request asks for no validation afterwards;
-- the impact trace, the runs of a check and the summary line are not modelled. A line number is a
-- number, where the code's int below 0 is refused as a 0 is. The files are put back in the order in
-- which they were saved, where the code ranges over a map.
pub mod Made
pub mod Preflight
pub mod AllOrNothing
pub mod Atomic
pub mod Safe
pub mod Run
use arno.Base.{
  ℕ, ◌+◌, Bool, true, false, not, ◌&&◌, ◌||◌, List, [], ◌∷◌, ◌++◌, Option, none, some, Text, codes,
  text_eq, ltb, ◌==◌, length, is_empty, if◌then◌else◌, trim_space, Dict, lookup,
}
use arno.Disk.{Disk, Read, contents, missing, unreadable, OsError, read_file, write_file}
use arno.Edits.{count}
use arno.Edits.Index.{
  Answer, ok, err, IndexError, symbol_not_found, unknown_op, insert_source, replace_text_source,
  replace_range_source,
}
use arno.Edits.Symbols.{
  Symbol, ids_of, symbols_by_name, replace_symbol_source, delete_symbol_source,
}
use arno.Service.{StaleRevision, check_revision, line_delta, count_lines, Snippet}
use arno.Service.Operations.{Formatter, format_files, snippets}
use arno.Workspace.{Manager, bump_revision, add_once, sorted, occurs}
use arno.Workspace.Checkpoints.{before_write}

pub record EditOp : Type 0 where
  pub op : Text
  pub path : Text
  pub old_text : Text
  pub new_text : Text
  pub symbol_id : Text
  pub symbol_name : Text
  pub start_line : ℕ
  pub end_line : ℕ
  pub anchor : Text
  pub position : Text

pub record ApplyRequest : Type 0 where
  pub edits : List EditOp
  pub expected_revision : Text
  pub format : Bool

-- Why an edit is refused before anything is written.
pub data Fault : Type 0 where
  path_required old_text_required symbol_required new_text_required invalid_lines : Fault
  not_an_op outside cannot_read anchor_not_found : Fault
  anchor_ambiguous : ℕ → Fault

pub record ApplyResponse : Type 0 where
  pub old_revision : Text
  pub new_revision : Text
  pub applied : ℕ
  pub changed : List Text
  pub added_lines : ℕ
  pub removed_lines : ℕ
  pub formatted : List Text
  pub snippets : List Snippet

-- How a request ends. Of a roll back `lost` names the files that could not be put back, which the
-- code does not report.
pub data ApplyEnd : Type 0 where
  applied_all : ApplyResponse → ApplyEnd
  no_edits : ApplyEnd
  stale_revision : StaleRevision → ApplyEnd
  refused_edit : (index : ℕ) → Fault → ApplyEnd
  no_snapshot : Text → ApplyEnd
  rolled_back : (index : ℕ) → IndexError → (lost : List Text) → ApplyEnd

abbrev pub is_op : EditOp → Text → Bool
is_op o name = text_eq o.op name

abbrev pub fault_if : Bool → Fault → Option Fault
fault_if b fault = if b then some fault else none

unfoldable pub validate_op_shape : EditOp → Option Fault
validate_op_shape o =
    if is_op o (codes "replace_text")
    then fault_if (is_empty o.old_text) old_text_required
    else if is_op o (codes "replace_range")
    then fault_if (ltb o.start_line 1 || ltb o.end_line o.start_line) invalid_lines
    else if is_op o (codes "replace_symbol") || is_op o (codes "delete_symbol")
    then fault_if (is_empty o.symbol_id && is_empty o.symbol_name) symbol_required
    else if is_op o (codes "insert")
    then fault_if (is_empty o.new_text) new_text_required
    else some not_an_op

abbrev pub anchor_of : EditOp → Text
anchor_of o =
    if is_op o (codes "replace_text")
    then o.old_text
    else if is_op o (codes "insert")
    then o.anchor
    else []

unfoldable pub validate_anchor : EditOp → Text → Option Fault
validate_anchor o source =
    if is_empty (anchor_of o)
    then none
    else if count source (anchor_of o) == 0
    then some anchor_not_found
    else if count source (anchor_of o) == 1
    then none
    else some (anchor_ambiguous (count source (anchor_of o)))

abbrev pub validate_read : EditOp → Read × Disk Manager → Option Fault × Disk Manager
validate_read o (contents source, d) = (validate_anchor o source, d)
validate_read o (_, d) = (some cannot_read, d)

-- The answer to one edit, or what follows it.
abbrev pub or_next :
    ℕ
    → Option Fault × Disk Manager
    → (Disk Manager → Option (ℕ × Fault) × Disk Manager)
    → Option (ℕ × Fault) × Disk Manager
or_next index (some fault, d) next = (some (index, fault), d)
or_next index (none, d) next = next d

abbrev pub is_some_fault : Option Fault → Bool
is_some_fault none = false
is_some_fault (some fault) = true

-- One round of `preflight`; `touched` are the paths of the edits before.
unfoldable pub preflight_one :
    (Text → Bool) → List Text → EditOp → Disk Manager → Option Fault × Disk Manager
preflight_one resolves touched o d =
    if is_empty (trim_space o.path)
    then (some path_required, d)
    else if is_some_fault (validate_op_shape o)
    then (validate_op_shape o, d)
    else if not (resolves o.path)
    then (some outside, d)
    else if occurs o.path touched
    then (none, d)
    else validate_read o (read_file o.path d)

unfoldable pub preflight :
    (Text → Bool) → ℕ → List Text → List EditOp → Disk Manager → Option (ℕ × Fault) × Disk Manager
preflight resolves index touched [] d = (none, d)
preflight resolves index touched (o ∷ edits) d =
    or_next (index + 1) (preflight_one resolves touched o d)
      (λ d. preflight resolves (index + 1) (o.path ∷ touched) edits d)

-- What the files held before the first edit.
abbrev pub Snapshots : Type 0
Snapshots = List (Text × Text)

abbrev pub has_snapshot : Text → Snapshots → Bool
has_snapshot path [] = false
has_snapshot path ((p, bytes) ∷ snapshots) = text_eq p path || has_snapshot path snapshots

pub data Saving : Type 0 where
  saved : Snapshots → Saving
  not_saved : Text → Saving

abbrev pub save_read :
    Text
    → (Text → Disk Manager → Saving × Disk Manager)
    → Read × Disk Manager
    → Saving × Disk Manager
save_read path next (contents bytes, d) = next bytes d
save_read path next (_, d) = (not_saved path, d)

unfoldable pub snapshot_files : Snapshots → List EditOp → Disk Manager → Saving × Disk Manager
snapshot_files snapshots [] d = (saved snapshots, d)
snapshot_files snapshots (o ∷ edits) d =
    let skipped = snapshot_files snapshots edits d in
    let taken =
      save_read o.path (λ bytes d. snapshot_files (snapshots ++ (o.path, bytes) ∷ []) edits d)
        (read_file o.path d) in
    if has_snapshot o.path snapshots then skipped else taken

abbrev pub note_lost : Text → Option OsError → List Text → List Text
note_lost path none lost = lost
note_lost path (some e) lost = path ∷ lost

unfoldable pub restore_files : Snapshots → Disk Manager → List Text × Disk Manager
restore_files [] d = ([], d)
restore_files ((path, bytes) ∷ snapshots) d =
    let (e, d1) = write_file before_write path bytes d in
    let (lost, d2) = restore_files snapshots d1 in (note_lost path e lost, d2)

abbrev pub delta_answer :
    {A : Type 0} → (A → ℕ × ℕ) → Answer A × Disk Manager → Answer (ℕ × ℕ) × Disk Manager
delta_answer f (ok value, d) = (ok (f value), d)
delta_answer f (err e, d) = (err e, d)

-- The id of the one candidate.
abbrev pub only_id : Text → List Symbol → Answer Text
only_id symbol_name [] = err (symbol_not_found symbol_name [])
only_id symbol_name (s ∷ []) = ok s.id
only_id symbol_name (s ∷ t ∷ more) = err (symbol_not_found symbol_name (ids_of (s ∷ t ∷ more)))

abbrev pub id_of_named : Text → Answer (List Symbol) × Disk Manager → Answer Text × Disk Manager
id_of_named symbol_name (err e, d) = (err e, d)
id_of_named symbol_name (ok candidates, d) = (only_id symbol_name candidates, d)

abbrev pub with_id :
    Answer Text × Disk Manager
    → (Text → Disk Manager → Answer (ℕ × ℕ) × Disk Manager)
    → Answer (ℕ × ℕ) × Disk Manager
with_id (err e, d) next = (err e, d)
with_id (ok id, d) next = next id d

-- What the loop over the edits has summed up: how many were made, the lines, the paths, and the
-- edits whose text a snippet shows.
pub record Progress : Type 0 where
  pub applied : ℕ
  pub added : ℕ
  pub removed : ℕ
  pub touched : List Text
  pub written : List EditOp

abbrev pub progressed : EditOp → ℕ × ℕ → Progress → Progress
progressed o (added, removed) progress = record {
  applied = progress.applied + 1;
  added = progress.added + added;
  removed = progress.removed + removed;
  touched = add_once progress.touched o.path;
  written =
      if not (is_empty o.new_text) && not (is_op o (codes "replace_symbol"))
      then progress.written ++ o ∷ []
      else progress.written;
}

pub data LoopEnd : Type 0 where
  all_made : Progress → LoopEnd
  stopped : (index : ℕ) → IndexError → LoopEnd

abbrev pub max_snippets : ℕ
max_snippets = 4
