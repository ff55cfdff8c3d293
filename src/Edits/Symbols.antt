-- ===== src/Edits/Symbols.antt =====
-- The symbols of a file: internal/code/symbol_notfound.go, internal/code/delete_symbol.go,
-- internal/code/references.go and the edits of a symbol in internal/code/index.go. What the parser
-- finds in a file is an argument, `symbols_of`, of the file's path and text; the cache in front of
-- the parser is not modelled.
pub mod Deletion
pub mod Tests
pub mod Refused
pub mod Blanks
pub mod Resolve
use arno.Base.{
  ℕ, suc, ◌+◌, ◌-◌, Bool, not, ◌&&◌, ◌||◌, List, [], ◌∷◌, ◌++◌, map, Option, none, some, Text,
  codes, newline, text_eq, ltb, length, take, drop, get_elem?, is_empty, if◌then◌else◌, has_prefix,
  trim_space, join,
}
use arno.Base.Paths.{clean}
use arno.Disk.{
  Disk, Read, contents, missing, unreadable, OsError, read_file, write_file, tick, fails,
}
use arno.Edits.{split_lines, rejoin, spliced, has_suffix}
use arno.Edits.Index.{
  Answer, ok, err, IndexError, outside_workspace, file_exists, system, invalid_symbol_id,
  symbol_not_found, symbol_invalid_range, terminated, lines_between, reading, wrote,
}

pub record Symbol : Type 0 where
  pub id : Text
  pub kind : Text
  pub name : Text
  pub path : Text
  pub from : ℕ
  pub to : ℕ

-- strings.LastIndex of a text that is not empty.
abbrev pub later_or : Bool → Option ℕ → Option ℕ
later_or here (some n) = some (suc n)
later_or here none = if here then some 0 else none

unfoldable pub last_index : Text → Text → Option ℕ
last_index p [] = none
last_index p (c ∷ s) = later_or (has_prefix (c ∷ s) p) (last_index p s)

abbrev pub before_index : Text → Option ℕ → Option Text
before_index s none = none
before_index s (some n) = some (take n s)

unfoldable pub symbol_id_path : Text → Option Text
symbol_id_path symbol_id = before_index symbol_id (last_index (codes "::") symbol_id)

abbrev pub before_at : Text → Option ℕ → Text
before_at name none = name
before_at name (some n) = take n name

abbrev pub unless_empty : Text → Option Text
unless_empty name = if is_empty name then none else some name

abbrev pub name_after : Text → Option ℕ → Option Text
name_after symbol_id none = none
name_after symbol_id (some n) =
    let name = drop (n + 2) symbol_id in unless_empty (before_at name (last_index (codes "@") name))

unfoldable pub symbol_id_name : Text → Option Text
symbol_id_name symbol_id = name_after symbol_id (last_index (codes "::") symbol_id)

-- `for _, symbol := range symbols { if symbol.Name == name ... }`
unfoldable pub named : Text → List Symbol → List Symbol
named name [] = []
named name (s ∷ symbols) =
    let rest = named name symbols in if text_eq s.name name then s ∷ rest else rest

-- The first symbol with the id.
unfoldable pub find_id : Text → List Symbol → Option Symbol
find_id id [] = none
find_id id (s ∷ symbols) = let rest = find_id id symbols in if text_eq s.id id then some s else rest

abbrev pub ids_of : List Symbol → List Text
ids_of symbols = map (λ s. s.id) symbols

-- `symbolNotFoundError`: the id, and the ids of the symbols that have its name.
abbrev pub candidates_named : Option Text → List Symbol → List Symbol
candidates_named none symbols = []
candidates_named (some name) symbols = named name symbols

unfoldable pub symbol_not_found_error : Text → List Symbol → IndexError
symbol_not_found_error symbol_id symbols =
    symbol_not_found symbol_id (ids_of (candidates_named (symbol_id_name symbol_id) symbols))

-- `if len(matches) == 1 { return matches[0], nil }`
abbrev pub only : IndexError → List Symbol → Answer Symbol
only e [] = err e
only e (s ∷ []) = ok s
only e (s ∷ t ∷ matches) = err e

abbrev pub exact_or_named : Text → List Symbol → Option Symbol → Answer Symbol
exact_or_named symbol_id symbols (some s) = ok s
exact_or_named symbol_id symbols none =
    only (symbol_not_found_error symbol_id symbols)
      (candidates_named (symbol_id_name symbol_id) symbols)

unfoldable pub resolve_symbol_in_file : List Symbol → Text → Answer Symbol
resolve_symbol_in_file symbols symbol_id =
    exact_or_named symbol_id symbols (find_id symbol_id symbols)

-- `strings.TrimSpace(lines[n]) == ""`, for a line that is there; lines are counted from 0.
abbrev pub blank_line : Option Text → Bool
blank_line none = Bool.false
blank_line (some line) = is_empty (trim_space line)

abbrev pub is_blank_at : List Text → ℕ → Bool
is_blank_at lines n = blank_line (get_elem? lines n)

unfoldable pub expand_to_surrounding_blank : List Text → ℕ → ℕ → ℕ × ℕ
expand_to_surrounding_blank lines from to =
    if ltb to (length lines) && is_blank_at lines to
    then (from, to + 1)
    else if ltb 1 from && is_blank_at lines (from - 2)
    then (from - 1, to)
    else (from, to)

-- What `DeleteSymbolSource` writes.
unfoldable pub without_lines : List Text → ℕ × ℕ → Text
without_lines lines (from, to) =
    let remaining = take (from - 1) lines ++ drop to lines in
    let updated = join (newline ∷ []) remaining in
    if ltb 0 (length remaining) && not (has_suffix updated (newline ∷ []))
    then updated ++ newline ∷ []
    else updated

abbrev pub range_is_invalid : Symbol → List Text → Bool
range_is_invalid s lines = ltb s.from 1 || (ltb (length lines) s.to || ltb s.to s.from)

-- The place of a symbol in the file that was read, with the id exactly.
abbrev pub located : Text → List Symbol → ℕ → Option Symbol → Answer Symbol
located symbol_id symbols lines none = err (symbol_not_found_error symbol_id symbols)
located symbol_id symbols lines (some s) =
    if ltb s.from 1 || ltb lines s.from then err (symbol_invalid_range symbol_id) else ok s

module _ {ℓ} {S : Type ℓ} (before : Text → Read → S → S) (resolves : Text → Bool) where
  -- `MkdirAll` and what follows it.
  abbrev pub after_mkdir : Text → Text → Disk S → Answer ℕ × Disk S
  after_mkdir path content d =
      if fails d
      then (err (system OsError.other), tick d)
      else wrote before resolves 0 (write_file before path (terminated content) (tick d))

  -- `os.Stat`, which fails where a read would.
  abbrev pub create_unless_there : Text → Text → Read × Disk S → Answer ℕ × Disk S
  create_unless_there path content (contents bytes, d) = (err (file_exists path), d)
  create_unless_there path content (unreadable, d) = (err (system OsError.other), d)
  create_unless_there path content (missing, d) = after_mkdir path content d

  unfoldable pub create_file : Text → Text → Disk S → Answer ℕ × Disk S
  create_file path content d =
      if resolves path
      then create_unless_there path content (read_file path d)
      else (err (outside_workspace path), d)

  module _ (symbols_of : Text → Text → List Symbol) where
    unfoldable pub symbols_by_name : Text → Text → Disk S → Answer (List Symbol) × Disk S
    symbols_by_name path symbol_name d =
        reading before resolves path
          (λ source d. (ok (named symbol_name (symbols_of (clean path) source)), d)) d

    abbrev pub or_no_candidates : Answer (List Symbol) × Disk S → List Symbol × Disk S
    or_no_candidates (ok symbols, d) = (symbols, d)
    or_no_candidates (err e, d) = ([], d)

    abbrev pub candidates_by : Text → Option Text → Disk S → List Symbol × Disk S
    candidates_by path none d = ([], d)
    candidates_by path (some name) d = or_no_candidates (symbols_by_name path name d)

    unfoldable pub candidates_for_id : Text → Text → Disk S → List Symbol × Disk S
    candidates_for_id path symbol_id d = candidates_by path (symbol_id_name symbol_id) d

    unfoldable pub locate_symbol_position : Text → Text → Disk S → Answer Symbol × Disk S
    locate_symbol_position path symbol_id d =
        reading before resolves path
          (λ source d.
            let symbols = symbols_of (clean path) source in
            (
              located symbol_id symbols (length (split_lines source)) (find_id symbol_id symbols),
              d,
            ))
          d

    abbrev pub replace_resolved :
        Text → Text → Text → Answer Symbol → Disk S → Answer (Symbol × List Text) × Disk S
    replace_resolved path new_code source (err e) d = (err e, d)
    replace_resolved path new_code source (ok s) d =
        let lines = split_lines source in
        if range_is_invalid s lines
        then (err (symbol_invalid_range s.id), d)
        else wrote before resolves (s, lines_between lines s.from s.to)
            (write_file before path
              (rejoin source (spliced lines s.from s.to (split_lines new_code))) d)

    abbrev pub replace_in :
        Text → Text → Option Text → Disk S → Answer (Symbol × List Text) × Disk S
    replace_in symbol_id new_code none d = (err (invalid_symbol_id symbol_id), d)
    replace_in symbol_id new_code (some path) d =
        reading before resolves path
          (λ source d.
            replace_resolved path new_code source
              (resolve_symbol_in_file (symbols_of path source) symbol_id) d)
          d

    unfoldable pub replace_symbol_source :
        Text → Text → Disk S → Answer (Symbol × List Text) × Disk S
    replace_symbol_source symbol_id new_code d =
        replace_in symbol_id new_code (symbol_id_path symbol_id) d

    abbrev pub delete_lines :
        Text → Symbol → List Text → ℕ × ℕ → Disk S → Answer (Symbol × List Text) × Disk S
    delete_lines path s lines (from, to) d =
        wrote before resolves (s, lines_between lines from to)
          (write_file before path (without_lines lines (from, to)) d)

    abbrev pub delete_located :
        Text → Text → Answer Symbol × Disk S → Answer (Symbol × List Text) × Disk S
    delete_located path symbol_id (err e, d) = (err e, d)
    delete_located path symbol_id (ok s, d) =
        reading before resolves path
          (λ source d.
            let lines = split_lines source in
            if range_is_invalid s lines
            then (err (symbol_invalid_range symbol_id), d)
            else delete_lines path s lines (expand_to_surrounding_blank lines s.from s.to) d)
          d

    unfoldable pub delete_symbol_source :
        Text → Text → Disk S → Answer (Symbol × List Text) × Disk S
    delete_symbol_source path symbol_id d =
        delete_located path symbol_id (locate_symbol_position path symbol_id d)
