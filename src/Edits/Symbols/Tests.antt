-- ===== src/Edits/Symbols/Tests.antt =====
-- The properties of the symbols at concrete inputs.
use arno.Base.{ℕ, ◌+◌, true, none, Text, [], ◌∷◌, codes}
use arno.Disk.{Disk, Read}
use arno.Edits.Symbols.Deletion.{Deleted, delete_symbol_source-Deleted}
use arno.Edits.Symbols.{delete_symbol_source, Symbol, resolve_symbol_in_file}
use arno.Edits.Symbols.Resolve.{Resolved, resolve_symbol_in_file-Resolved}

abbrev greet : Symbol
greet = record {
  id = codes "greet.go::Greet@3";
  kind = codes "function";
  name = codes "Greet";
  path = codes "greet.go";
  from = 3;
  to = 5;
}

resolve_symbol_in_file-Resolved_example :
    Resolved
      (greet ∷ [])
      (codes "greet.go::Greet")
      (resolve_symbol_in_file (greet ∷ []) (codes "greet.go::Greet"))
resolve_symbol_in_file-Resolved_example =
    resolve_symbol_in_file-Resolved (greet ∷ []) (codes "greet.go::Greet")

abbrev disk : Disk ℕ
disk = record {
  files =
      (
        codes "greet.go",
        record { data_of = codes "package a\n\nfunc Greet() {\n}\n\nvar x = 1\n"; mode = 420 },
      )
      ∷ [];
  temp = none;
  faults = [];
  read_faults = [];
  observer = 0;
}

abbrev count_writes : Text → Read → ℕ → ℕ
count_writes path r n = n + 1

delete_symbol_source-Deleted_example :
    Deleted count_writes
      (λ _. true)
      (λ path source. greet ∷ [])
      (codes "greet.go")
      (codes "greet.go::Greet@3")
      disk.files
      (delete_symbol_source count_writes
        (λ _. true)
        (λ path source. greet ∷ [])
        (codes "greet.go")
        (codes "greet.go::Greet@3")
        disk)
delete_symbol_source-Deleted_example =
    delete_symbol_source-Deleted count_writes (λ _. true) (λ path source. greet ∷ [])
      (codes "greet.go") (codes "greet.go::Greet@3") disk
