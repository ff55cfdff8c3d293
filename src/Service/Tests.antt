-- ===== src/Service/Tests.antt =====
-- The properties of the edit service at concrete inputs.
use arno.Base.{
  ◌≡◌, refl, true, List, [], ◌∷◌, Option, none, some, Text, codes, text_eq, if◌then◌else◌,
  has_prefix, split, join, trim_space, trim_left, trim_right, is_space, lookup, insert, arith,
}
use arno.Disk.{Disk, write_file, through_temp, or_fail, notify, read_file}
use arno.Disk.Atomic.{data_at}
use arno.Edits.{
  split_lines, rejoin, line_terminator, returns_first, has_suffix, trim_suffix, newlines,
}
use arno.Edits.Index.{replace_range_source}
use arno.Edits.Symbols.{
  Symbol, symbol_id_path, last_index, replace_symbol_source, resolve_symbol_in_file, find_id,
}
use arno.Service.{count_lines, check_revision, delta_lines, line_delta}
use arno.Service.Apply.{
  EditOp, ApplyRequest, preflight, preflight_one, validate_op_shape, validate_anchor,
  snapshot_files, restore_files,
}
use arno.Service.Apply.Run.{apply, apply_loop, apply_one, resolve_symbol}
use arno.Service.Delta.{Delta, line_delta-Delta}
use arno.Service.Operations.{
  Formatter, replace_range, replace_text, insert_text, create, replace_file, remove_path,
  delete_symbol, replace_symbol,
}
use arno.Service.Revision.{DeletedIn, ReplacedAs, Served, edits-Served}
use arno.Service.Stale.{Checked, check_revision-Checked}
use arno.Workspace.{Manager, new_manager, revision_string, occurs}
use arno.Workspace.Checkpoints.{before_write, note_all}
use arno.Workspace.Since.{IsLedger}

abbrev disk : Disk Manager
disk = record {
  files =
      (codes "a.go", record { data_of = codes "func F() {}\n"; mode = 420 })
      ∷ (codes "b.go", record { data_of = codes "func G() {}\n"; mode = 420 })
      ∷ [];
  temp = none;
  faults = [];
  read_faults = [];
  observer = new_manager none;
}

-- A parser that finds one function in a.go.
abbrev one_function : Text → Text → List Symbol
one_function path source =
    if text_eq (codes "a.go") path
    then record {
      id = codes "a.go::F@1";
      kind = codes "function";
      name = codes "F";
      path = codes "a.go";
      from = 1;
      to = 1;
    }
      ∷ []
    else []

abbrev no_formatter : Text → Option Formatter
no_formatter path = none

abbrev blank_op : EditOp
blank_op = record {
  op = [];
  path = [];
  old_text = [];
  new_text = [];
  symbol_id = [];
  symbol_name = [];
  start_line = 0;
  end_line = 0;
  anchor = [];
  position = [];
}

-- The second edit names a line behind the end of its file.
abbrev request : ApplyRequest
request = record {
  edits =
      record blank_op {
        op = codes "replace_text";
        path = codes "a.go";
        old_text = codes "F";
        new_text = codes "H";
      }
      ∷ record blank_op {
        op = codes "replace_range";
        path = codes "b.go";
        new_text = codes "x";
        start_line = 1;
        end_line = 9;
      }
      ∷ [];
  expected_revision = [];
  format = true;
}

line_delta-Delta_example :
    Delta
      (delta_lines (codes "a\nb\n"))
      (delta_lines (codes "a\nx\nb\n"))
      (line_delta (codes "a\nb\n") (codes "a\nx\nb\n"))
line_delta-Delta_example = line_delta-Delta (codes "a\nb\n") (codes "a\nx\nb\n")

fresh-IsLedger : IsLedger 1 (new_manager none)
fresh-IsLedger = record { numbered = tt; latest = refl; bounded = omega arith }

check_revision-Checked_example :
    Checked 1 (new_manager none) (check_revision (revision_string 1) (new_manager none))
check_revision-Checked_example =
    check_revision-Checked 1 1 (new_manager none) fresh-IsLedger (omega arith) (omega arith)
      (omega arith) (omega arith)

edits-Served_example :
    Served
      (λ key. key ≡ codes "a.go")
      disk
      (replace_range no_formatter (λ _. true) (codes "a.go") (codes "r1") 1 1 (codes "x") disk)
    × Served
        (λ key. key ≡ codes "a.go")
        disk
        (replace_text no_formatter
          (λ _. true)
          (codes "a.go")
          (codes "r1")
          (codes "F")
          (codes "x")
          disk)
    × Served
        (λ key. key ≡ codes "a.go")
        disk
        (insert_text no_formatter
          (λ _. true)
          (codes "a.go")
          (codes "r1")
          (codes "F")
          []
          (codes "x")
          disk)
    × Served
        (λ key. key ≡ codes "a.go")
        disk
        (create no_formatter (λ _. true) (codes "a.go") (codes "x") disk)
    × Served
        (λ key. key ≡ codes "a.go")
        disk
        (replace_file no_formatter (λ _. true) (codes "a.go") (codes "x") disk)
    × Served
        (λ key. key ≡ codes "a.go")
        disk
        (remove_path no_formatter (λ _. true) (codes "a.go") disk)
    × Served
        (DeletedIn no_formatter (λ _. true) one_function (codes "a.go") (codes "a.go::F@1") disk)
        disk
        (delete_symbol no_formatter
          (λ _. true)
          one_function
          (codes "a.go")
          (codes "a.go::F@1")
          (codes "r1")
          disk)
    × Served
        (ReplacedAs no_formatter (λ _. true) one_function (codes "a.go::F@1") (codes "x") disk)
        disk
        (replace_symbol no_formatter
          (λ _. true)
          one_function
          (codes "a.go::F@1")
          (codes "r1")
          (codes "x")
          disk)
edits-Served_example =
    edits-Served no_formatter (λ _. true) one_function (codes "a.go") (codes "r1") (codes "x")
      (codes "F") [] (codes "a.go::F@1") 1 1 disk

-- An edit that gives the id of a symbol of another file than its path's is not put back: b.go was
-- not saved.
abbrev away : ApplyRequest
away = record {
  edits =
      record blank_op {
        op = codes "replace_symbol";
        path = codes "b.go";
        symbol_id = codes "a.go::F@1";
        new_text = codes "x";
      }
      ∷ record blank_op {
        op = codes "replace_range";
        path = codes "b.go";
        new_text = codes "x";
        start_line = 1;
        end_line = 9;
      }
      ∷ [];
  expected_revision = [];
  format = true;
}

abbrev leaked : Option Text
leaked = data_at (codes "a.go") (apply (λ _. true) one_function no_formatter away disk).1.files

-- The batch failed, and a.go holds the new text.
leaked_eq : leaked ≡ some (codes "x\n")
unfolding apply check_revision preflight preflight_one validate_op_shape validate_anchor
    snapshot_files apply_loop apply_one resolve_symbol replace_symbol_source replace_range_source
    restore_files symbol_id_path last_index has_prefix resolve_symbol_in_file find_id split_lines
    rejoin line_terminator returns_first has_suffix trim_suffix split join write_file through_temp
    or_fail notify read_file before_write note_all count_lines newlines trim_space trim_left
    trim_right is_space occurs text_eq lookup insert
leaked_eq = refl
