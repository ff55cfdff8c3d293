-- ===== src/Disk/Tests.antt =====
-- The properties of the write path at concrete inputs.
use arno.Base.{◌≡◌, refl, ◌+◌, ℕ, true, false, List, [], ◌∷◌, none, Text, codes}
use arno.Disk.{Read, Disk, Change, write_files}
use arno.Disk.Atomic.{data_at}
use arno.Disk.AllOrNothing.{final}
use arno.Disk.Batch.{AllOrNone}
use arno.Disk.Success.{write_files-succeeds}
use arno.Disk.Files.{write_files-AllOrNone}

-- An observer that counts the writes that it is told of.
abbrev count_writes : Text → Read → ℕ → ℕ
count_writes path r n = n + 1

abbrev one_file : Disk ℕ
one_file = record {
  files = (codes "a.go", record { data_of = codes "package a"; mode = 493 }) ∷ [];
  temp = none;
  faults = false ∷ false ∷ false ∷ false ∷ false ∷ true ∷ [];
  read_faults = [];
  observer = 0;
}

abbrev two_changes : List Change
two_changes =
    record { path = codes "b.go"; data_of = codes "package b"; removes = false }
    ∷ record { path = codes "a.go"; data_of = []; removes = true }
    ∷ []

write_files-AllOrNone_example :
    AllOrNone count_writes one_file.files two_changes
      (write_files count_writes two_changes one_file)
write_files-AllOrNone_example = write_files-AllOrNone count_writes two_changes one_file

write_files-succeeds_example :
    ((write_files count_writes two_changes (record one_file { faults = [] })).0 ≡ none)
    × ((p : Text)
        → data_at p (write_files count_writes two_changes (record one_file { faults = [] })).1.files
          ≡ final p two_changes (data_at p one_file.files))
write_files-succeeds_example =
    write_files-succeeds count_writes two_changes (record one_file { faults = [] }) refl refl
