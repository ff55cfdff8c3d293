-- ===== src/Edits/Tests.antt =====
-- The properties of the edits at concrete inputs.
use arno.Base.{◌⊎◌, newline, ℕ, ◌+◌, ◌≡◌, refl, true, [], ◌∷◌, ◌++◌, none, Text, codes, has_prefix}
use arno.Disk.{Disk, Read}
use arno.Edits.{
  replace_text, match_line_endings, insert_into, insert_before, insert_after, split_lines, rejoin,
  has_suffix,
}
use arno.Edits.Index.{
  insert_source, replace_text_source, replace_range_source, replace_file_source, delete_file,
}
use arno.Edits.Anchor.{
  AtAnchor, FreedBelow, FreedAbove, replace_text-AtAnchor, insert_into-AtAnchor,
}
use arno.Edits.Lines.{split_lines-rejoin}
use arno.Edits.Refused.{Safe, edits-Safe}

abbrev source : Text
source = codes "package a\n\nfunc A() {}\n"

replace_text-AtAnchor_example :
    let (old_text, new_text) = match_line_endings source (codes "A()") (codes "B()") in
    AtAnchor source old_text
      (λ front back. front ++ (new_text ++ back))
      (replace_text source (codes "A()") (codes "B()"))
replace_text-AtAnchor_example = replace_text-AtAnchor source (codes "A()") (codes "B()") refl

insert_into-AtAnchor_example :
    ((below t : Text) × FreedBelow (codes "x") (codes "package a") t
      × (has_prefix below (newline ∷ []) ≡ true)
      × ((below ≡ t) ⊎ (below ≡ newline ∷ t))
      × AtAnchor source
          (codes "package a")
          (λ front back. front ++ (codes "package a" ++ (below ++ back)))
          (insert_into source (codes "package a") insert_after (codes "x")))
    × ((above t : Text) × FreedAbove (codes "x") (codes "package a") t
        × (has_suffix above (newline ∷ []) ≡ true)
        × ((above ≡ t) ⊎ (above ≡ t ++ newline ∷ []))
        × AtAnchor source
            (codes "package a")
            (λ front back. front ++ (above ++ (codes "package a" ++ back)))
            (insert_into source (codes "package a") insert_before (codes "x")))
insert_into-AtAnchor_example = insert_into-AtAnchor source (codes "package a") (codes "x") refl

split_lines-rejoin_example :
    split_lines (rejoin source (codes "x" ∷ codes "y" ∷ [])) ≡ codes "x" ∷ codes "y" ∷ []
unfolding has_suffix has_prefix
split_lines-rejoin_example =
    split_lines-rejoin source (codes "x") (codes "y" ∷ []) refl
      (((refl, tt), refl), (((refl, tt), refl), tt))

abbrev count_writes : Text → Read → ℕ → ℕ
count_writes path r n = n + 1

abbrev disk : Disk ℕ
disk = record {
  files = (codes "a.go", record { data_of = source; mode = 420 }) ∷ [];
  temp = none;
  faults = true ∷ [];
  read_faults = [];
  observer = 0;
}

edits-Safe_example :
    Safe (codes "a.go") disk.files (
      insert_source count_writes
        (λ _. true)
        (codes "a.go")
        (codes "A()")
        insert_after
        (codes "x")
        disk)
    × Safe
        (codes "a.go")
        disk.files
        (replace_text_source count_writes (λ _. true) (codes "a.go") (codes "A()") (codes "x") disk)
    × Safe
        (codes "a.go")
        disk.files
        (replace_range_source count_writes (λ _. true) (codes "a.go") 1 2 (codes "x") disk)
    × Safe
        (codes "a.go")
        disk.files
        (replace_file_source count_writes (λ _. true) (codes "a.go") (codes "x") disk)
    × Safe (codes "a.go") disk.files (delete_file count_writes (λ _. true) (codes "a.go") disk)
edits-Safe_example =
    edits-Safe count_writes (λ _. true) (codes "a.go") (codes "A()") insert_after (codes "x") 1 2
      disk
