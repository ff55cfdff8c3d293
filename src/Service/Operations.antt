-- ===== src/Service/Operations.antt =====
-- The formatter and the single edits of internal/edit/format.go and internal/edit/service.go.
use arno.Base.{
  ℕ, Bool, true, false, not, ◌&&◌, List, [], ◌∷◌, Option, none, some, Text, text_eq, length,
  is_empty, if◌then◌else◌, trim_space, Dict,
}
use arno.Disk.{Node, Disk, Read, contents, OsError, read_file, write_file}
use arno.Edits.Index.{
  Answer, ok, err, IndexError, insert_source, replace_text_source, replace_range_source,
  replace_file_source, delete_file,
}
use arno.Edits.Symbols.{Symbol, create_file, replace_symbol_source, delete_symbol_source}
use arno.Service.{StaleRevision, check_revision, line_delta, count_lines, Snippet, snippets_of}
use arno.Workspace.{Manager, bump_revision}
use arno.Workspace.Checkpoints.{before_write}

-- A formatter prints the formatted text of its input, or fails; or it is run on the path, says
-- whether it succeeded and may have changed the files.
pub data Formatter : Type 0 where
  via_stdin : (Text → Option Text) → Formatter
  in_place : (Text → Dict Node → Bool × Dict Node) → Formatter

pub record EditResponse : Type 0 where
  pub old_revision : Text
  pub new_revision : Text
  pub changed : List Text
  pub added_lines : ℕ
  pub removed_lines : ℕ
  pub formatted : List Text
  pub snippets : List Snippet

pub data Reply : Type 0 where
  accepted : EditResponse → Reply
  stale : StaleRevision → Reply
  failed : IndexError → Reply

abbrev is_none : Option OsError → Bool
is_none none = true
is_none (some e) = false

abbrev pub wrote_formatted : Option OsError × Disk Manager → Bool × Disk Manager
wrote_formatted (e, d) = (is_none e, d)

-- The output that `runStdinFormatter` writes back.
abbrev pub write_output : Text → Text → Option Text → Disk Manager → Bool × Disk Manager
write_output path before_format none d = (false, d)
write_output path before_format (some out) d =
    if is_empty out && not (is_empty before_format)
    then (false, d)
    else if text_eq before_format out
    then (false, d)
    else wrote_formatted (write_file before_write path out d)

abbrev pub differs : Text → Read × Disk Manager → Bool × Disk Manager
differs before_format (contents after, d) = (not (text_eq before_format after), d)
differs before_format (_, d) = (false, d)

abbrev pub after_run : Text → Text → Disk Manager → Bool × Dict Node → Bool × Disk Manager
after_run path before_format d (succeeded, files) =
    let d = record d { files = files } in
    if succeeded then differs before_format (read_file path d) else (false, d)

abbrev pub run_chosen : Formatter → Text → Read × Disk Manager → Bool × Disk Manager
run_chosen (via_stdin print) path (contents before_format, d) =
    write_output path before_format (print before_format) d
run_chosen (in_place run) path (contents before_format, d) =
    after_run path before_format d (run path d.files)
run_chosen chosen path (_, d) = (false, d)

unfoldable pub run_formatter : Formatter → Text → Disk Manager → Bool × Disk Manager
run_formatter chosen path d = run_chosen chosen path (read_file path d)

abbrev pub with_formatted : Text → Bool → List Text × Disk Manager → List Text × Disk Manager
with_formatted path reformatted (formatted, d) =
    (if reformatted then path ∷ formatted else formatted, d)

abbrev pub read_snippets : Text → Text → Read × Disk Manager → List Snippet × Disk Manager
read_snippets path text (contents source, d) = (snippets_of path text source, d)
read_snippets path text (_, d) = ([], d)

module _ (formatter_for : Text → Option Formatter) where
  abbrev pub run_or_skip : Option Formatter → Text → Disk Manager → Bool × Disk Manager
  run_or_skip none path d = (false, d)
  run_or_skip (some chosen) path d = run_formatter chosen path d

  unfoldable pub format_files : List Text → Disk Manager → List Text × Disk Manager
  format_files [] d = ([], d)
  format_files (path ∷ paths) d =
      let (reformatted, d') = run_or_skip (formatter_for path) path d in
      with_formatted path reformatted (format_files paths d')

module _ (resolves : Text → Bool) where
  unfoldable pub snippets : Text → Text → Disk Manager → List Snippet × Disk Manager
  snippets path text d =
      if is_empty (trim_space text)
      then ([], d)
      else if resolves path
      then read_snippets path text (read_file path d)
      else ([], d)

module _ (formatter_for : Text → Option Formatter) (resolves : Text → Bool) where
  -- What follows an edit that is made: `key` is what the ledger records, `text` is what a snippet
  -- shows, or nothing where the edit reports no snippet.
  abbrev pub record_edit :
      Text → Text → List Text → ℕ → ℕ → Text → Disk Manager → Reply × Disk Manager
  record_edit key path to_format added removed text d =
      let (formatted, d1) = format_files formatter_for to_format d in
      let ((old_revision, new_revision), m) = bump_revision (key ∷ []) d1.observer in
      let (shown, d2) = snippets resolves path text (record d1 { observer = m }) in
      (
        accepted (record {
          old_revision = old_revision;
          new_revision = new_revision;
          changed = key ∷ [];
          added_lines = added;
          removed_lines = removed;
          formatted = formatted;
          snippets = shown;
        }),
        d2,
      )

  -- The answer of the index, and what follows where it is no error.
  abbrev pub after_edit :
      {A : Type 0}
      → (A → Disk Manager → Reply × Disk Manager)
      → Answer A × Disk Manager
      → Reply × Disk Manager
  after_edit next (err e, d) = (failed e, d)
  after_edit next (ok value, d) = next value d

  abbrev pub unless_stale :
      Option StaleRevision
      → (Disk Manager → Reply × Disk Manager)
      → Disk Manager
      → Reply × Disk Manager
  unless_stale none next d = next d
  unless_stale (some e) next d = (stale e, d)

  abbrev pub checking :
      Text → (Disk Manager → Reply × Disk Manager) → Disk Manager → Reply × Disk Manager
  checking expected next d = unless_stale (check_revision expected d.observer) next d

  unfoldable pub replace_range : Text → Text → ℕ → ℕ → Text → Disk Manager → Reply × Disk Manager
  replace_range path expected start end new_code d =
      checking expected
        (λ d.
          after_edit
            (λ old_lines d.
              record_edit path path (path ∷ []) (count_lines new_code) (length old_lines) new_code
                d)
            (replace_range_source before_write resolves path start end new_code d))
        d

  unfoldable pub replace_text : Text → Text → Text → Text → Disk Manager → Reply × Disk Manager
  replace_text path expected old_text new_text d =
      checking expected
        (λ d.
          after_edit
            (λ lines d.
              let (added, removed) = line_delta old_text new_text in
              record_edit path path (path ∷ []) added removed new_text d)
            (replace_text_source before_write resolves path old_text new_text d))
        d

  unfoldable pub insert_text :
      Text → Text → Text → Text → Text → Disk Manager → Reply × Disk Manager
  insert_text path expected anchor position text d =
      checking expected
        (λ d.
          after_edit (λ added d. record_edit path path (path ∷ []) added 0 text d)
            (insert_source before_write resolves path anchor position text d))
        d

  unfoldable pub create : Text → Text → Disk Manager → Reply × Disk Manager
  create path content d =
      after_edit (λ z d. record_edit path path (path ∷ []) (count_lines content) 0 [] d)
        (create_file before_write resolves path content d)

  unfoldable pub replace_file : Text → Text → Disk Manager → Reply × Disk Manager
  replace_file path content d =
      after_edit (λ removed d. record_edit path path (path ∷ []) (count_lines content) removed [] d)
        (replace_file_source before_write resolves path content d)

  unfoldable pub remove_path : Text → Disk Manager → Reply × Disk Manager
  remove_path path d =
      after_edit (λ removed d. record_edit path path [] 0 removed [] d)
        (delete_file before_write resolves path d)

  module _ (symbols_of : Text → Text → List Symbol) where
    unfoldable pub replace_symbol : Text → Text → Text → Disk Manager → Reply × Disk Manager
    replace_symbol symbol_id expected new_code d =
        checking expected
          (λ d.
            after_edit
              (λ (s, old_lines) d.
                record_edit s.id s.path (s.path ∷ []) (count_lines new_code) (length old_lines) []
                  d)
              (replace_symbol_source before_write resolves symbols_of symbol_id new_code d))
          d

    unfoldable pub delete_symbol : Text → Text → Text → Disk Manager → Reply × Disk Manager
    delete_symbol path symbol_id expected d =
        checking expected
          (λ d.
            after_edit
              (λ (s, removed) d. record_edit s.path s.path (s.path ∷ []) 0 (length removed) [] d)
              (delete_symbol_source before_write resolves symbols_of path symbol_id d))
          d
