-- ===== src/Workspace.antt =====
-- internal/workspace/manager.go: the revision counter, the ledger of what each revision changed,
-- the validation runs and the checkpoints. Paths are relative to the workspace's root. A Go map
-- from paths is a list that holds a path once.
pub mod History
pub mod Unrecorded
pub mod Success
pub mod Tests
pub mod Revert
pub mod Checkpoints
pub mod Since
pub mod Tracking
pub mod Restore
use arno.Base.{
  ℕ, suc, ◌+◌, ◌-◌, Bool, true, false, not, ◌||◌, ◌&&◌, List, [], ◌∷◌, ◌++◌, Option, none, some,
  Text, codes, text_eq, ltb, leb, ◌==◌, length, drop, is_empty, if◌then◌else◌, GoInt, negative, nat,
  Dict, has_prefix, trim_prefix, trim_space,
}
use arno.Base.Paths.{clean}
use arno.Base.Sort.{sort_by}
use arno.Decimal.{itoa, atoi}
use arno.Events.{Event, Bus, publish}

pub record RevisionEntry : Type 0 where
  pub revision : ℕ
  pub paths : List Text

pub record ValidationRun : Type 0 where
  pub kind : Text
  pub outcome : Text
  pub revision : Text

pub record PriorState : Type 0 where
  pub data_of : Text
  pub existed : Bool

pub record CheckpointSnapshot : Type 0 where
  pub id : Text
  pub note : Text
  pub revision : ℕ
  pub changed : List Text
  pub files : Dict Text
  pub prior : Dict PriorState
  pub head : Text

pub record Manager : Type 0 where
  pub bus : Option Bus
  pub revision : ℕ
  pub changed : List Text
  pub ckpt_seq : ℕ
  pub ckpts : Dict CheckpointSnapshot
  pub runs : List ValidationRun
  pub ledger : List RevisionEntry

abbrev pub new_manager : Option Bus → Manager
new_manager bus = record {
  bus = bus;
  revision = 1;
  changed = [];
  ckpt_seq = 0;
  ckpts = [];
  runs = [];
  ledger = [];
}

abbrev pub max_ledger_entries : ℕ
max_ledger_entries = 500

abbrev pub max_recorded_runs : ℕ
max_recorded_runs = 10

abbrev pub revision_string : ℕ → Text
revision_string n = b'r' ∷ itoa n

abbrev pub emit : Event → Manager → Option Bus → Manager
emit e m none = m
emit e m (some b) = record m { bus = some (publish e b) }

abbrev pub workspace_event : Text → List (Text × Text) → Event
workspace_event type payload = record { type = type; entity = codes "workspace"; payload = payload }

-- `strings.LastIndex(key, "::")`: what stands before the last pair of colons.
abbrev pub or_here : ℕ → Bool → Option Text → Option Text
or_here c here (some p) = some (c ∷ p)
or_here c here none = if here then some [] else none

unfoldable pub before_last_colons : Text → Option Text
before_last_colons [] = none
before_last_colons (c ∷ s) = or_here c (has_prefix (c ∷ s) (codes "::")) (before_last_colons s)

abbrev pub or_key : Text → Option Text → Text
or_key key none = key
or_key key (some path) = path

unfoldable pub path_from_changed_key : Text → Text
path_from_changed_key key = or_key key (before_last_colons key)

unfoldable pub occurs : Text → List Text → Bool
occurs p [] = false
occurs p (q ∷ qs) = text_eq q p || occurs p qs

-- `if !seen[path] { seen[path] = true; paths = append(paths, path) }`
abbrev pub add_once : List Text → Text → List Text
add_once paths p = if occurs p paths then paths else paths ++ p ∷ []

unfoldable pub add_all : List Text → List Text → List Text
add_all paths [] = paths
add_all paths (p ∷ ps) = add_all (add_once paths p) ps

abbrev pub sorted : List Text → List Text
sorted = sort_by (λ p. p)

-- `m.changed[filepath.Clean(p)] = struct{}{}`
unfoldable pub mark_changed : List Text → List Text → List Text
mark_changed changed [] = changed
mark_changed changed (p ∷ ps) =
    let skipped = mark_changed changed ps in
    let marked = mark_changed (add_once changed (clean p)) ps in
    if is_empty p then skipped else marked

unfoldable pub entry_paths : List Text → List Text → List Text
entry_paths paths [] = paths
entry_paths paths (p ∷ ps) =
    let skipped = entry_paths paths ps in
    let added = entry_paths (add_once paths (path_from_changed_key (clean p))) ps in
    if is_empty p then skipped else added

-- The last `max` elements.
abbrev pub newest {ℓ} : {A : Type ℓ} → ℕ → List A → List A
newest max xs = if ltb max (length xs) then drop (length xs - max) xs else xs

-- What a bump changes, before its event.
abbrev pub bumped : List Text → Manager → Manager
bumped changed_paths m =
    let entry : RevisionEntry = record {
      revision = m.revision + 1;
      paths = sorted (entry_paths [] changed_paths);
    } in
    record m {
      revision = m.revision + 1;
      changed = mark_changed m.changed changed_paths;
      ledger = newest max_ledger_entries (m.ledger ++ entry ∷ []);
    }

unfoldable pub bump_revision : List Text → Manager → (Text × Text) × Manager
bump_revision changed_paths m =
    let old_revision = revision_string m.revision in
    let new_revision = revision_string (m.revision + 1) in
    (
      (old_revision, new_revision),
      emit
          (workspace_event (codes "REVISION_BUMPED")
            ((codes "old_revision", old_revision) ∷ (codes "new_revision", new_revision) ∷ []))
          (bumped changed_paths m) m.bus,
    )

-- `for _, entry := range m.ledger`
unfoldable pub paths_after : ℕ → List Text → List RevisionEntry → List Text
paths_after n paths [] = paths
paths_after n paths (entry ∷ entries) =
    let skipped = paths_after n paths entries in
    let added = paths_after n (add_all paths entry.paths) entries in
    if leb entry.revision n then skipped else added

-- `len(m.ledger) == 0 || m.ledger[0].revision > n+1`
abbrev pub is_partial : ℕ → List RevisionEntry → Bool
is_partial n [] = true
is_partial n (entry ∷ entries) = ltb (n + 1) entry.revision

abbrev pub since : Manager → Option GoInt → Option (List Text)
since m (some (nat n)) =
    if ltb n 1
    then none
    else if ltb m.revision n
    then none
    else if n == m.revision
    then some []
    else if is_partial n m.ledger
    then none
    else some (sorted (paths_after n [] m.ledger))
since m _ = none

-- `none` is the answer that the revision is not known.
unfoldable pub changed_since : Text → Manager → Option (List Text)
changed_since expected m =
    let expected = trim_space expected in
    if has_prefix expected (codes "r")
    then since m (atoi (trim_prefix expected (codes "r")))
    else none

unfoldable pub record_run : Text → Text → Manager → Manager
record_run kind outcome m =
    let run : ValidationRun = record {
      kind = kind;
      outcome = outcome;
      revision = revision_string m.revision;
    } in
    if is_empty outcome || text_eq outcome (codes "running")
    then m
    else record m { runs = newest max_recorded_runs (m.runs ++ run ∷ []) }

-- `dedupe`, on a sorted list: `last` is the element before.
unfoldable pub drop_repeats : Text → List Text → List Text
drop_repeats last [] = []
drop_repeats last (v ∷ vs) =
    let rest = drop_repeats v vs in if text_eq v last then rest else v ∷ rest

unfoldable pub dedupe : List Text → List Text
dedupe [] = []
dedupe (v ∷ vs) = v ∷ drop_repeats v vs
