-- ===== src/Commands.antt =====
-- internal/commands/registry.go: the commands that a repository declares. The encoding of the file
-- is encoding/json's, an argument; a Go map is a list that holds a name once. `RelPath` is the
-- file's path from the workspace's root.
pub mod Changes
pub mod Tests
pub mod Reachable
pub mod Mirror
use arno.Base.{
  ℕ, ◌+◌, Bool, true, false, not, ◌&&◌, ◌||◌, List, [], ◌∷◌, ◌++◌, map, Option, none, some, Text,
  codes, newline, text_eq, ltb, leb, ◌==◌, length, is_empty, if◌then◌else◌, trim_space, join, Dict,
  lookup, insert, remove, keys,
}
use arno.Base.Sort.{sort_by}
use arno.Disk.{
  Disk, Read, contents, missing, unreadable, OsError, read_file, write_file, fails, tick,
}

pub record Command : Type 0 where
  pub run : Text
  pub description : Text
  pub kind : Text

pub data CommandError : Type 0 where
  name_required : CommandError
  invalid_name : Text → CommandError
  run_required : Text → CommandError
  run_too_long : Text → ℕ → CommandError
  registry_full : CommandError
  not_json : CommandError
  no_encoding : CommandError
  system : OsError → CommandError

pub data Loaded : Type 0 where
  loaded : Dict Command → Loaded
  load_failed : CommandError → Loaded

abbrev pub rel_path : Text
rel_path = codes ".arno/commands.json"

abbrev pub max_commands : ℕ
max_commands = 64

abbrev pub max_run_length : ℕ
max_run_length = 2000

-- The classes of `namePattern`.
abbrev pub starts_name : ℕ → Bool
starts_name c = (leb b'a' c && leb c b'z') || (leb b'0' c && leb c b'9')

abbrev pub continues_name : ℕ → Bool
continues_name c = starts_name c || (c == b':' || (c == b'_' || c == b'-'))

unfoldable pub all_continue : Text → Bool
all_continue [] = true
all_continue (c ∷ s) = let rest = all_continue s in continues_name c && rest

-- `namePattern.MatchString`
unfoldable pub is_name : Text → Bool
is_name [] = false
is_name (c ∷ s) = starts_name c && (all_continue s && leb (length s) 39)

unfoldable pub validate_name : Text → Option CommandError
validate_name name =
    if is_empty name
    then some name_required
    else if is_name name
    then none
    else some (invalid_name name)

-- `for name := range registry.commands { if err := ValidateName(name) ... }`
abbrev pub or_rest : Option CommandError → Option CommandError → Option CommandError
or_rest (some e) rest = some e
or_rest none rest = rest

unfoldable pub first_invalid : Dict Command → Option CommandError
first_invalid [] = none
first_invalid ((name, c) ∷ commands) = or_rest (validate_name name) (first_invalid commands)

abbrev pub unless_invalid : Dict Command → Option CommandError → Loaded
unless_invalid commands (some e) = load_failed e
unless_invalid commands none = loaded commands

abbrev pub decoded : Option (Dict Command) → Loaded
decoded none = load_failed not_json
decoded (some commands) = unless_invalid commands (first_invalid commands)

unfoldable pub names : Dict Command → List Text
names commands = sort_by (λ n. n) (keys commands)

abbrev pub command_or_blank : Option Command → Command
command_or_blank none = record { run = []; description = []; kind = [] }
command_or_blank (some c) = c

abbrev pub declared_all : Dict Command → List (Text × Command)
declared_all commands = map (λ n. (n, command_or_blank (lookup n commands))) (names commands)

unfoldable pub chained : Text → List (Text × Command) → List Text × List Text
chained kind [] = ([], [])
chained kind ((name, c) ∷ entries) =
    let (rest_names, rest_runs) = chained kind entries in
    if text_eq c.kind kind
    then (name ∷ rest_names, (codes "(" ++ (c.run ++ codes ")")) ∷ rest_runs)
    else (rest_names, rest_runs)

abbrev pub joined : List Text × List Text → Option (List Text × Text)
joined ([], runs) = none
joined (name ∷ more, runs) = some (name ∷ more, join (codes " && ") runs)

unfoldable pub chain : Text → Dict Command → Option (List Text × Text)
chain kind commands = joined (chained kind (declared_all commands))

unfoldable pub lookup_command : Text → Dict Command → Option Command
lookup_command name commands = lookup (trim_space name) commands

abbrev pub is_declared : Option Command → Bool
is_declared none = false
is_declared (some c) = true

-- What a change of the registry answers: whether the command was there before, or an error.
pub data Declared : Type 0 where
  declared : (existed : Bool) → Declared
  refused : CommandError → Declared

abbrev pub failed_as : Option OsError → Option CommandError
failed_as none = none
failed_as (some e) = some (system e)

module _ {ℓ} {S : Type ℓ} (before : Text → Read → S → S) (marshal : Dict Command → Option Text)
    (unmarshal : Text → Option (Dict Command)) where
  abbrev pub load_read : Read → Loaded
  load_read missing = loaded []
  load_read unreadable = load_failed (system OsError.other)
  load_read (contents bytes) = decoded (unmarshal bytes)

  unfoldable pub load : Disk S → Loaded × Disk S
  load d = let (r, d') = read_file rel_path d in (load_read r, d')

  abbrev pub write_encoded : Option Text → Disk S → Option CommandError × Disk S
  write_encoded none d = (some no_encoding, d)
  write_encoded (some bytes) d =
      let (e, d') = write_file before rel_path (bytes ++ newline ∷ []) d in (failed_as e, d')

  -- `MkdirAll`, the encoding and the write.
  unfoldable pub save : Dict Command → Disk S → Option CommandError × Disk S
  save commands d =
      if fails d
      then (some (system OsError.other), tick d)
      else write_encoded (marshal commands) (tick d)

  abbrev pub reloaded :
      CommandError → Dict Command → Loaded × Disk S → Declared × Dict Command × Disk S
  reloaded e commands (loaded fresh, d) = (refused e, fresh, d)
  reloaded e commands (load_failed _, d) = (refused e, commands, d)

  abbrev pub after_save :
      Bool → Text → Dict Command → Option CommandError × Disk S → Declared × Dict Command × Disk S
  after_save replaced name commands (none, d) = (declared replaced, commands, d)
  after_save replaced name commands (some e, d) =
      if replaced then reloaded e commands (load d) else (refused e, remove name commands, d)

  abbrev pub declare_named :
      Text → Command → Dict Command → Disk S → Declared × Dict Command × Disk S
  declare_named name command commands d =
      let run = trim_space command.run in
      let replaced = is_declared (lookup name commands) in
      let changed =
        insert name (record command { run = run; description = trim_space command.description })
          commands in
      if is_empty run
      then (refused (run_required name), commands, d)
      else if ltb max_run_length (length run)
      then (refused (run_too_long name (length run)), commands, d)
      else if not replaced && leb max_commands (length commands)
      then (refused registry_full, commands, d)
      else after_save replaced name changed (save changed d)

  abbrev pub unless_refused :
      Option CommandError
      → Dict Command
      → Disk S
      → Declared × Dict Command × Disk S
      → Declared × Dict Command × Disk S
  unless_refused (some e) commands d next = (refused e, commands, d)
  unless_refused none commands d next = next

  unfoldable pub declare : Text → Command → Dict Command → Disk S → Declared × Dict Command × Disk S
  declare name command commands d =
      let name = trim_space name in
      unless_refused (validate_name name) commands d (declare_named name command commands d)

  abbrev pub after_removal :
      Text
      → Command
      → Dict Command
      → Option CommandError × Disk S
      → Declared × Dict Command × Disk S
  after_removal name command commands (none, d) = (declared true, commands, d)
  after_removal name command commands (some e, d) = (refused e, insert name command commands, d)

  abbrev pub remove_found :
      Text → Option Command → Dict Command → Disk S → Declared × Dict Command × Disk S
  remove_found name none commands d = (declared false, commands, d)
  remove_found name (some command) commands d =
      after_removal name command (remove name commands) (save (remove name commands) d)

  unfoldable pub remove_command : Text → Dict Command → Disk S → Declared × Dict Command × Disk S
  remove_command name commands d =
      let name = trim_space name in remove_found name (lookup name commands) commands d
