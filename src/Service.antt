-- ===== src/Service.antt =====
-- internal/edit/service.go, internal/edit/format.go and internal/edit/snippet.go: the edits as the
-- service makes them, with the revision they expect, the formatter and the revision they leave.
-- Which formatter a file has and what the formatter does are arguments. The diagnostics of a
-- response, which it only passes on, are not modelled; nor is Rename, which asks a language server.
pub mod Formatted
pub mod Tests
pub mod Stale
pub mod Delta
pub mod Revision
pub mod Apply
pub mod Operations
use arno.Base.{
  ℕ, suc, ◌+◌, ◌-◌, ◌*◌, ◌/◌, Bool, true, false, not, ◌&&◌, ◌||◌, List, [], ◌∷◌, ◌++◌, reverse,
  Option, none, some, Text, codes, newline, text_eq, ltb, ◌==◌, length, take, drop, keep_last,
  is_empty, if◌then◌else◌, trim_space, trim_right, split, join,
}
use arno.Disk.{Disk, Read, contents, missing, unreadable, OsError, read_file, write_file}
use arno.Edits.{trim_suffix, newlines, is_newline}
use arno.Edits.Index.{
  Answer, ok, err, IndexError, insert_source, replace_text_source, replace_range_source,
  replace_file_source, delete_file,
}
use arno.Edits.Symbols.{Symbol, create_file, replace_symbol_source, delete_symbol_source}
use arno.Workspace.{Manager, revision_string, bump_revision, changed_since}
use arno.Workspace.Checkpoints.{before_write}

-- `changed` is `none` where the expected revision is not known.
pub record StaleRevision : Type 0 where
  pub expected : Text
  pub current : Text
  pub changed : Option (List Text)

unfoldable pub check_revision : Text → Manager → Option StaleRevision
check_revision expected m =
    let expected = trim_space expected in
    let current = revision_string m.revision in
    if is_empty expected || text_eq expected current
    then none
    else some
        (record { expected = expected; current = current; changed = changed_since expected m })

-- The lines of `lineDelta`: none in an empty text.
unfoldable pub delta_lines : Text → List Text
delta_lines text =
    let trimmed = trim_suffix text (newline ∷ []) in
    if is_empty trimmed then [] else split newline trimmed

-- How many lines two lists share at their start.
unfoldable pub shared : List Text → List Text → ℕ
shared [] ys = 0
shared (x ∷ xs) [] = 0
shared (x ∷ xs) (y ∷ ys) = let rest = shared xs ys in if text_eq x y then suc rest else 0

-- The lines added and removed, on lines; the second loop stops where the shared start begins.
unfoldable pub delta_of : List Text → List Text → ℕ × ℕ
delta_of old_lines new_lines =
    let prefix = shared old_lines new_lines in
    let suffix = shared (reverse (drop prefix old_lines)) (reverse (drop prefix new_lines)) in
    (length new_lines - prefix - suffix, length old_lines - prefix - suffix)

abbrev pub line_delta : Text → Text → ℕ × ℕ
line_delta old_text new_text = delta_of (delta_lines old_text) (delta_lines new_text)

unfoldable pub count_lines : Text → ℕ
count_lines s = let trimmed = trim_space s in if is_empty trimmed then 0 else newlines trimmed + 1

pub record Snippet : Type 0 where
  pub path : Text
  pub start_line : ℕ
  pub end_line : ℕ
  pub source : Text

abbrev pub snippet_context : ℕ
snippet_context = 2

abbrev pub max_snippet_lines : ℕ
max_snippet_lines = 16

-- `if at >= 0 { return 0, false }; at = index`, and the rest of the loop.
abbrev pub second_stops : Option ℕ → Option ℕ → Option ℕ
second_stops (some at) rest = none
second_stops none rest = rest

unfoldable pub unique_from : Text → ℕ → Option ℕ → List Text → Option ℕ
unique_from trimmed index at [] = at
unique_from trimmed index at (line ∷ lines) =
    let skipped = unique_from trimmed (index + 1) at lines in
    let marked = unique_from trimmed (index + 1) (some index) lines in
    if text_eq (trim_space line) trimmed then second_stops at marked else skipped

abbrev pub unique_line : List Text → Text → Option ℕ
unique_line lines trimmed = unique_from trimmed 0 none lines

-- `begin = at - offset`, where a begin below 0 reports nothing.
abbrev pub begin_at : ℕ → Option ℕ → Option ℕ → Option ℕ
begin_at offset none rest = rest
begin_at offset (some at) rest = if ltb at offset then none else some (at - offset)

unfoldable pub find_begin : List Text → ℕ → List Text → Option ℕ
find_begin file_lines offset [] = none
find_begin file_lines offset (line ∷ lines) =
    let rest = find_begin file_lines (offset + 1) lines in
    if is_empty (trim_space line)
    then rest
    else begin_at offset (unique_line file_lines (trim_space line)) rest

-- A line with an ellipsis, in UTF-8, between two newlines.
abbrev pub ellipsis_line : Text
ellipsis_line = newline ∷ 226 ∷ 128 ∷ 166 ∷ newline ∷ []

abbrev pub shortened : List Text → Text
shortened selected =
    let half = max_snippet_lines / 2 in
    if ltb max_snippet_lines (length selected)
    then join (newline ∷ []) (take half selected)
      ++ (ellipsis_line ++ join (newline ∷ []) (keep_last half selected))
    else join (newline ∷ []) selected

abbrev pub snippet_at : Text → List Text → ℕ → Option ℕ → List Snippet
snippet_at path file_lines size none = []
snippet_at path file_lines size (some begin) =
    let from = begin - snippet_context in
    let wanted = begin + size + snippet_context in
    let to = if ltb (length file_lines) wanted then length file_lines else wanted in
    record {
      path = path;
      start_line = from + 1;
      end_line = to;
      source = shortened (drop from (take to file_lines));
    }
    ∷ []

unfoldable pub snippets_of : Text → Text → Text → List Snippet
snippets_of path text source =
    let file_lines = split newline source in
    let text_lines = split newline (trim_right is_newline text) in
    snippet_at path file_lines (length text_lines) (find_begin file_lines 0 text_lines)
