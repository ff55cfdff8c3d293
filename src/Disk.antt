-- ===== src/Disk.antt =====
-- internal/writes/writes.go: the one write path. The disk maps a path to a file's data and mode;
-- whether an operation of the operating system fails is drawn from a list, which the theorems leave
-- open. Symbolic links are not modelled: `EvalSymlinks` answers the path it is given. An observer
-- is told of a write before it happens and reads the file itself.
pub mod Restores
pub mod Observer
pub mod Success
pub mod Tests
pub mod Files
pub mod Batch
pub mod AllOrNothing
pub mod Atomic
use arno.Base.{
  ℕ, suc, ◌+◌, Bool, true, false, not, List, [], ◌∷◌, ◌++◌, map, Option, none, some, Text, text_eq,
  ◌||◌, length, is_empty, if◌then◌else◌, Dict, lookup, insert, remove,
}

pub record Node : Type 0 where
  pub data_of : Text
  pub mode : ℕ

-- An error of the operating system: `os.IsNotExist` holds of it or not.
pub data OsError : Type 0 where
  not_exist other : OsError

pub data Read : Type 0 where
  contents : Text → Read
  missing unreadable : Read

-- `faults` says of every coming operation that changes the disk, and `read_faults` of every coming
-- read, whether it fails; behind their ends nothing does. `temp` is the temporary file.
pub record Disk {ℓ} (S : Type ℓ) : Type ℓ where
  pub files : Dict Node
  pub temp : Option Text
  pub faults : List Bool
  pub read_faults : List Bool
  pub observer : S

abbrev pub head_or_false : List Bool → Bool
head_or_false [] = false
head_or_false (b ∷ bs) = b

abbrev pub tail_of : List Bool → List Bool
tail_of [] = []
tail_of (b ∷ bs) = bs

abbrev pub read_node : Option Node → Read
read_node none = missing
read_node (some n) = contents n.data_of

abbrev pub mode_or_default : Option Node → ℕ
mode_or_default none = 420
mode_or_default (some n) = n.mode

pub record Change : Type 0 where
  pub path : Text
  pub data_of : Text
  pub removes : Bool

pub data FilesError : Type 0 where
  nothing_written : Text → FilesError
  restored : (path : Text) → (written : ℕ) → FilesError
  not_restored : (path : Text) → (failed : List Text) → FilesError

-- `if err = Remove(change.Path); os.IsNotExist(err) { err = nil }`
abbrev pub unless_missing : Option OsError → Option OsError
unless_missing (some not_exist) = none
unless_missing e = e

abbrev pub noted : Text → Option OsError → List Text → List Text
noted path none failed = failed
noted path (some e) failed = path ∷ failed

abbrev pub saved_as : Read → Option (Option Text)
saved_as (contents bytes) = some (some bytes)
saved_as missing = some none
saved_as unreadable = none

module _ {ℓ} {S : Type ℓ} where
  abbrev pub fails : Disk S → Bool
  fails d = head_or_false d.faults

  abbrev pub tick : Disk S → Disk S
  tick d = record d { faults = tail_of d.faults }

  -- `os.ReadFile`
  unfoldable pub read_file : Text → Disk S → Read × Disk S
  read_file path d = (
    if head_or_false d.read_faults then unreadable else read_node (lookup path d.files),
    record d { read_faults = tail_of d.read_faults },
  )

  abbrev pub removed : Text → Disk S → Option Node → Option OsError × Disk S
  removed path d none = (some not_exist, d)
  removed path d (some n) = (none, record d { files = remove path d.files })

  -- `os.Remove`
  unfoldable pub os_remove : Text → Disk S → Option OsError × Disk S
  os_remove path d =
      if fails d then (some other, tick d) else removed path (tick d) (lookup path d.files)

  -- One step of `File` once the temporary file is there: it fails, and `fail` removes that file, or
  -- `next` goes on.
  unfoldable pub or_fail : Disk S → (Disk S → Option OsError × Disk S) → Option OsError × Disk S
  or_fail d next =
      let failed = tick d in
      let cleared = record (tick failed) { temp = if fails failed then failed.temp else none } in
      if fails d then (some other, cleared) else next (tick d)

  module _ (before : Text → Read → S → S) where
    unfoldable pub notify : Text → Disk S → Disk S
    notify path d =
        let (r, d') = read_file path d in record d' { observer = before path r d'.observer }

    -- `Remove`
    unfoldable pub remove_file : Text → Disk S → Option OsError × Disk S
    remove_file path d = os_remove path (notify path d)

    -- The write, the close, the change of mode and the rename.
    unfoldable pub through_temp : Text → Text → ℕ → Disk S → Option OsError × Disk S
    through_temp path bytes mode d = or_fail d (λ d.
        or_fail (record d { temp = some bytes })
          (λ d. or_fail d (λ d. or_fail d (λ d. (
            none,
            record d {
              files = insert path (record { data_of = bytes; mode = mode }) d.files;
              temp = none;
            },
          )))))

    -- `File`
    unfoldable pub write_file : Text → Text → Disk S → Option OsError × Disk S
    write_file path bytes d =
        let d = notify path d in
        let mode = mode_or_default (lookup path d.files) in
        if fails d
        then (some other, tick d)
        else through_temp path bytes mode (record (tick d) { temp = some [] })

    unfoldable pub apply_change : Change → Disk S → Option OsError × Disk S
    apply_change c d =
        let (e, d') = remove_file c.path d in
        if c.removes then (unless_missing e, d') else write_file c.path c.data_of d

    unfoldable pub restore : Text → Option Text → Disk S → Option OsError × Disk S
    restore path none d = os_remove path d
    restore path (some bytes) d = write_file path bytes d

    -- `for j := 0; j < i; j++`: the paths whose restore failed.
    unfoldable pub restore_all : List (Change × Option Text) → Disk S → List Text × Disk S
    restore_all [] d = ([], d)
    restore_all ((c, old) ∷ rest) d =
        let (e, d1) = restore c.path old d in
        let (failed, d2) = restore_all rest d1 in (noted c.path e failed, d2)

    abbrev pub gave_up : Text → ℕ → List Text × Disk S → Option FilesError × Disk S
    gave_up path i ([], d) = (some (restored path i), d)
    gave_up path i (f ∷ failed, d) = (some (not_restored path (f ∷ failed)), d)

    abbrev pub after_write :
        Text
        → List (Change × Option Text)
        → (Disk S → Option FilesError × Disk S)
        → Option OsError × Disk S
        → Option FilesError × Disk S
    after_write path written next (none, d) = next d
    after_write path written next (some e, d) =
        gave_up path (length written) (restore_all written d)

    -- The second loop of `Files`; `written` is what stands before `i`.
    unfoldable pub write_all :
        List (Change × Option Text)
        → List (Change × Option Text)
        → Disk S
        → Option FilesError × Disk S
    write_all written [] d = (none, d)
    write_all written ((c, old) ∷ rest) d =
        after_write c.path written (write_all (written ++ (c, old) ∷ []) rest) (apply_change c d)

    abbrev pub beside :
        Change
        → Option (Option Text)
        → (List (Change × Option Text) → Option FilesError × Disk S)
        → Disk S
        → List (Change × Option Text)
        → Option FilesError × Disk S
    beside c none next d saved = (some (nothing_written c.path), d)
    beside c (some old) next d saved = next (saved ++ (c, old) ∷ [])

    -- `Files`, from the first loop on: `saved` is what the paths held that have been read.
    unfoldable pub save_then_write :
        List Change → List (Change × Option Text) → Disk S → Option FilesError × Disk S
    save_then_write [] saved d = write_all [] saved d
    save_then_write (c ∷ cs) saved d =
        let (r, d') = read_file c.path d in
        beside c (saved_as r) (λ saved. save_then_write cs saved d') d' saved

    unfoldable pub write_files : List Change → Disk S → Option FilesError × Disk S
    write_files changes d = save_then_write changes [] d
