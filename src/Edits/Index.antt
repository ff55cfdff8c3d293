-- ===== src/Edits/Index.antt =====
-- The edits of the index on the disk, and reads by line. Whether `resolvePath` admits a path is an
-- argument. The cache of symbols, which only a read of symbols fills, is not modelled.
use arno.Base.{
  ℕ, ◌+◌, ◌-◌, Bool, not, ◌&&◌, ◌||◌, List, [], ◌∷◌, ◌++◌, Option, none, some, Text, newline, ltb,
  ◌==◌, length, take, drop, is_empty, if◌then◌else◌, GoInt, negative, nat, join,
}
use arno.Clamp.{clamp}
use arno.Base.{codes}
use arno.Disk.{
  Disk, Read, contents, missing, unreadable, OsError, read_file, write_file, remove_file,
}
use arno.Edits.{
  EditError, Edited, edited, not_edited, insert_into, replace_text, count_lines_in,
  match_line_endings, split_lines, rejoin, spliced, has_suffix,
}

pub data IndexError : Type 0 where
  outside_workspace : Text → IndexError
  file_missing : Text → IndexError
  file_exists : Text → IndexError
  system : OsError → IndexError
  cannot_read : Text → IndexError
  insert_text_required : IndexError
  edit_refused : EditError → IndexError
  invalid_range : (path : Text) → (lines : ℕ) → IndexError
  negative_bound : Text → IndexError
  invalid_symbol_id : Text → IndexError
  symbol_not_found : (symbol_id : Text) → (candidates : List Text) → IndexError
  symbol_invalid_range : Text → IndexError
  unknown_op : Text → IndexError

pub data Answer {ℓ} (A : Type ℓ) : Type ℓ where
  ok : A → Answer A
  err : IndexError → Answer A

pub record RangeRead : Type 0 where
  pub source : Text
  pub start : ℕ
  pub end : ℕ
  pub total : ℕ
  pub clamped_end : Bool
  pub next_line : ℕ
  pub through : ℕ

abbrev pub read_answer : Text → Read → Answer Text
read_answer path (contents bytes) = ok bytes
read_answer path missing = err (file_missing path)
read_answer path unreadable = err (cannot_read path)

-- `if content != "" && !strings.HasSuffix(content, "\n") { content += "\n" }`
abbrev pub terminated : Text → Text
terminated content =
    if not (is_empty content) && not (has_suffix content (newline ∷ []))
    then content ++ newline ∷ []
    else content

-- The bounds that a read uses: a zero is a bound that was left out.
abbrev pub bounds : Text → List Text → ℕ → ℕ → Answer (RangeRead × List Text)
bounds path lines start end =
    let start = if start == 0 then 1 else start in
    let last =
      if end == 0 then length lines else if ltb (length lines) end then length lines else end in
    if ltb (length lines) start || ltb last start
    then err (invalid_range path (length lines))
    else ok (
      record {
        source = [];
        start = start;
        end = last;
        total = length lines;
        clamped_end = ltb (length lines) end;
        next_line = 0;
        through = 0;
      },
      lines,
    )

unfoldable pub range_of : Text → Text → GoInt → GoInt → Answer (RangeRead × List Text)
range_of path source negative end = err (negative_bound path)
range_of path source (nat start) negative = err (negative_bound path)
range_of path source (nat start) (nat end) = bounds path (split_lines source) start end

abbrev pub lines_between : List Text → ℕ → ℕ → List Text
lines_between lines start end = take (end - (start - 1)) (drop (start - 1) lines)

-- The loop of `ReadRangePage`, on the lines that are left; `last` is the last one that fits.
unfoldable pub fitting : ℕ → List Text → ℕ → ℕ → ℕ
fitting max_bytes [] size last = last
fitting max_bytes (line ∷ lines) size last =
    let cost = length line + 1 in
    let rest = fitting max_bytes lines (size + cost) (last + 1) in
    if ltb 0 size && ltb max_bytes (size + cost) then last else rest

abbrev pub page_of : ℕ → Answer (RangeRead × List Text) → Answer RangeRead
page_of max_bytes (err e) = err e
page_of max_bytes (ok (read, lines)) =
    let last = fitting max_bytes (lines_between lines read.start read.end) 0 (read.start - 1) in
    let cut = ltb last read.end in
    let end = if cut then last else read.end in
    ok (record read {
      through = read.end;
      next_line = if cut then last + 1 else 0;
      end = end;
      source = join (newline ∷ []) (lines_between lines read.start end);
    })

abbrev pub max_read_range_bytes : ℕ
max_read_range_bytes = 20000

abbrev pub info_of : Answer (RangeRead × List Text) → Answer RangeRead
info_of (err e) = err e
info_of (ok (read, lines)) = ok (record read {
  source =
      (clamp (join (newline ∷ []) (lines_between lines read.start read.end))
        (nat max_read_range_bytes) (codes "request a narrower line range")).0;
})

module _ {ℓ} {S : Type ℓ} (before : Text → Read → S → S) (resolves : Text → Bool) where
  abbrev pub with_read :
      {A : Type 0} → Text → (Text → Disk S → Answer A × Disk S) → Read × Disk S → Answer A × Disk S
  with_read path next (contents bytes, d) = next bytes d
  with_read path next (missing, d) = (err (file_missing path), d)
  with_read path next (unreadable, d) = (err (cannot_read path), d)

  -- `resolvePath` and `os.ReadFile`, and what follows.
  abbrev pub reading :
      {A : Type 0} → Text → (Text → Disk S → Answer A × Disk S) → Disk S → Answer A × Disk S
  reading path next d =
      if resolves path
      then with_read path next (read_file path d)
      else (err (outside_workspace path), d)

  abbrev pub wrote : {A : Type 0} → A → Option OsError × Disk S → Answer A × Disk S
  wrote value (none, d) = (ok value, d)
  wrote value (some e, d) = (err (system e), d)

  abbrev pub write_edited : Text → ℕ → Edited → Disk S → Answer ℕ × Disk S
  write_edited path lines (not_edited e) d = (err (edit_refused e), d)
  write_edited path lines (edited updated) d = wrote lines (write_file before path updated d)

  unfoldable pub insert_source : Text → Text → Text → Text → Disk S → Answer ℕ × Disk S
  insert_source path anchor position text d =
      if is_empty text
      then (err insert_text_required, d)
      else reading path
          (λ source.
            write_edited path (count_lines_in text) (insert_into source anchor position text))
          d

  unfoldable pub replace_text_source : Text → Text → Text → Disk S → Answer ℕ × Disk S
  replace_text_source path old_text new_text d =
      if is_empty old_text
      then (err (edit_refused EditError.anchor_required), d)
      else reading path
          (λ source.
            write_edited path (count_lines_in (match_line_endings source old_text new_text).0)
              (replace_text source old_text new_text))
          d

  unfoldable pub replace_range_source : Text → ℕ → ℕ → Text → Disk S → Answer (List Text) × Disk S
  replace_range_source path start end new_code d =
      reading path
        (λ source d.
          let lines = split_lines source in
          let updated = rejoin source (spliced lines start end (split_lines new_code)) in
          if ltb start 1 || (ltb (length lines) end || ltb end start)
          then (err (invalid_range path (length lines)), d)
          else wrote (lines_between lines start end) (write_file before path updated d))
        d

  unfoldable pub replace_file_source : Text → Text → Disk S → Answer ℕ × Disk S
  replace_file_source path content d =
      reading path
        (λ existing d.
          wrote (count_lines_in existing) (write_file before path (terminated content) d))
        d

  unfoldable pub delete_file : Text → Disk S → Answer ℕ × Disk S
  delete_file path d =
      reading path (λ source d. wrote (length (split_lines source)) (remove_file before path d)) d

  abbrev pub read_range_with :
      {A : Type 0}
      → (Answer (RangeRead × List Text) → Answer A)
      → Text
      → GoInt
      → GoInt
      → Disk S
      → Answer A × Disk S
  read_range_with finish path start end d =
      reading path (λ source d. (finish (range_of path source start end), d)) d

  unfoldable pub read_range_info : Text → GoInt → GoInt → Disk S → Answer RangeRead × Disk S
  read_range_info path start end d = read_range_with info_of path start end d

  unfoldable pub read_range_page : Text → GoInt → GoInt → ℕ → Disk S → Answer RangeRead × Disk S
  read_range_page path start end max_bytes d = read_range_with (page_of max_bytes) path start end d
