-- ===== src/Edits/Symbols/Deletion.antt =====
-- `DeleteSymbolSource`: what the deletion of a symbol leaves in its file.
use mathlib.Core.Path.{subst}
use arno.Base.{
  lt→ltb, true, not, ◌&&◌, join, newline, [], ◌∷◌, ◌+◌, Dict, ℕ, ◌-◌, ◌≤◌, ◌≡◌, refl, ◌∙◌, Bool,
  false, ◌||◌, List, ◌++◌, Option, some, Text, text_eq_self, ltb, length, take, drop, if◌then◌else◌,
  Bool-cases, inl, inr, arith,
}
use arno.Base.Paths.{clean}
use arno.Disk.{Node, Disk, Read, contents, missing, unreadable, OsError, read_file}
use arno.Disk.AllOrNothing.{Put, did, did_not, write-Put}
use arno.Disk.Atomic.{read_file-contents, data_at}
use arno.Edits.{split_lines, has_suffix}
use arno.Edits.Index.{
  Answer, ok, err, IndexError, with_read, wrote, lines_between, symbol_invalid_range,
}
use arno.Edits.Symbols.{
  Symbol, find_id, expand_to_surrounding_blank, without_lines, range_is_invalid, located,
  locate_symbol_position, delete_lines, delete_located, delete_symbol_source,
}
use arno.Edits.Symbols.Blanks.{Widened, expand-Widened, lines-eq, Widened-le, pieces_length}
use arno.Edits.Symbols.Resolve.{StandsIn, NoId, Anything, Found, found, absent, find_id-Found}

is_range :
    (s : Symbol) (lines : List Text)
    → range_is_invalid s lines ≡ false
    → (1 ≤ s.from) × (s.from ≤ s.to) × (s.to ≤ length lines)
is_range s lines e = (ground arith, ground arith, ground arith)

-- A file that holds the lines, one newline between two of them, and ends with a newline unless no
-- line is left.
pub data Holds (lines : List Text) : Text → Type 0 where
  no_line : lines ≡ [] → Holds lines []
  newline_added : Holds lines (join (newline ∷ []) lines ++ newline ∷ [])
  newline_there :
      has_suffix (join (newline ∷ []) lines) (newline ∷ []) ≡ true
      → Holds lines (join (newline ∷ []) lines)

without_lines-Holds :
    (lines : List Text) (range : ℕ × ℕ)
    → Holds (take (range.0 - 1) lines ++ drop range.1 lines) (without_lines lines range)
unfolding without_lines
without_lines-Holds lines range = by_rest (take (range.0 - 1) lines ++ drop range.1 lines)
  where
    by_rest :
        (rest : List Text)
        → Holds rest (
            if ltb 0 (length rest) && not (has_suffix (join (newline ∷ []) rest) (newline ∷ []))
            then join (newline ∷ []) rest ++ newline ∷ []
            else join (newline ∷ []) rest)
    by_rest [] = unfold join in no_line refl
    by_rest (line ∷ rest) =
        let some_line : ltb 0 (length (line ∷ rest)) ≡ true = lt→ltb 0 _ (omega arith) in
        rw some_line
          (elim (Bool-cases (has_suffix (join (newline ∷ []) (line ∷ rest)) (newline ∷ []))) [
            | inl e ↦ rw e (newline_there e)
            | inr e ↦ rw e newline_added
          ])

module _ {ℓ} {S : Type ℓ} (before : Text → Read → S → S) (resolves : Text → Bool)
    (symbols_of : Text → Text → List Symbol) where
  -- How the deletion of a symbol ends. `deleted`: the symbol is the first of the file's with the
  -- id; of the file's lines those of the symbol, with at most one blank line beside them, are
  -- `gone`, and the file holds the others, those in front and those behind. `not_deleted`: no file
  -- was changed.
  pub data Deleted (path symbol_id : Text) (start : Dict Node)
      : Answer (Symbol × List Text) × Disk S → Type ℓ where
    deleted :
        (s : Symbol) (source : Text) (from to : ℕ) (front gone behind : List Text) (bytes : Text)
        (d : Disk S)
        → s.id ≡ symbol_id
        → data_at path start ≡ some source
        → StandsIn (symbols_of (clean path) source) s (NoId symbol_id) Anything
        → (1 ≤ s.from) × (s.from ≤ s.to) × (s.to ≤ length (split_lines source))
        → Widened (split_lines source) s.from s.to (from, to)
        → split_lines source ≡ front ++ (gone ++ behind)
        → length front ≡ from - 1
        → length front + length gone ≡ to
        → data_at path d.files ≡ some bytes
        → Holds (front ++ behind) bytes
        → Deleted path symbol_id start (ok (s, gone), d)
    not_deleted :
        (e : IndexError) (d : Disk S) → d.files ≡ start → Deleted path symbol_id start (err e, d)

  data Located (path symbol_id : Text) (start : Dict Node) : Answer Symbol × Disk S → Type ℓ where
    here :
        (s : Symbol) (source : Text) (d : Disk S)
        → s.id ≡ symbol_id
        → data_at path start ≡ some source
        → StandsIn (symbols_of (clean path) source) s (NoId symbol_id) Anything
        → d.files ≡ start
        → Located path symbol_id start (ok s, d)
    nowhere :
        (e : IndexError) (d : Disk S) → d.files ≡ start → Located path symbol_id start (err e, d)

  locate-Located :
      (path symbol_id : Text) (d : Disk S)
      → Located path symbol_id d.files
          (locate_symbol_position before resolves symbols_of path symbol_id d)
  unfolding locate_symbol_position
  locate-Located path symbol_id d = elim (Bool-cases (resolves path)) [
    | inr e ↦ rw e (nowhere _ d refl)
    | inl e ↦ rw e (
        by_read (read_file path d).0 (read_file path d).1 (unfold read_file in refl)
          (read_file-contents path d))
  ]
    where
      by_symbol :
          (source : Text) (d' : Disk S)
          → d'.files ≡ d.files
          → data_at path d.files ≡ some source
          → (o : Option Symbol) → Found symbol_id (symbols_of (clean path) source) o
          → Located path symbol_id d.files (
            located symbol_id (symbols_of (clean path) source) (length (split_lines source)) o,
            d',
          )
      by_symbol source d' e held _ (absent h) = nowhere _ d' e
      by_symbol source d' e held _ (found s same i) =
          elim (Bool-cases (ltb s.from 1 || ltb (length (split_lines source)) s.from)) [
            | inl q ↦ rw q (nowhere _ d' e)
            | inr q ↦ rw q (here s source d' same held i e)
          ]

      by_read :
          (r : Read) (d' : Disk S)
          → d'.files ≡ d.files
          → ((bytes : Text) → r ≡ contents bytes → data_at path d.files ≡ some bytes)
          → Located path symbol_id d.files (
              with_read before resolves path
                (λ source d2.
                  let symbols = symbols_of (clean path) source in
                  (
                    located symbol_id symbols
                        (length (split_lines source))
                        (find_id symbol_id symbols),
                    d2,
                  ))
                (r, d'))
      by_read missing d' e held = nowhere _ d' e
      by_read unreadable d' e held = nowhere _ d' e
      by_read (contents source) d' e held =
          by_symbol source d' e (held source refl) _
            (find_id-Found symbol_id (symbols_of (clean path) source))

  -- A deletion removes the lines of the file's first symbol that has the id, with at most one blank
  -- line beside them, and answers them; the file then holds the lines in front of them and those
  -- behind, joined with newlines, with a newline at its end unless no line is left. Or it is
  -- refused or fails, and no file is changed.
  pub delete_symbol_source-Deleted :
      (path symbol_id : Text) (d : Disk S)
      → Deleted path symbol_id d.files
          (delete_symbol_source before resolves symbols_of path symbol_id d)
  unfolding delete_symbol_source
  delete_symbol_source-Deleted path symbol_id d = by_place _ (locate-Located path symbol_id d)
    where
      by_write :
          (s : Symbol) (source : Text) (range : ℕ × ℕ) (d2 : Disk S)
          → s.id ≡ symbol_id
          → data_at path d.files ≡ some source
          → StandsIn (symbols_of (clean path) source) s (NoId symbol_id) Anything
          → (1 ≤ s.from) × (s.from ≤ s.to) × (s.to ≤ length (split_lines source))
          → Widened (split_lines source) s.from s.to range
          → d2.files ≡ d.files
          → (r : Option OsError × Disk S)
          → Put path (some (without_lines (split_lines source) range)) d2.files r
          → Deleted path symbol_id d.files
              (wrote before resolves (s, lines_between (split_lines source) range.0 range.1) r)
      by_write s source range d2 same held i valid w e _ (did d3 at_path) =
          let (front_length, gone_length) =
            pieces_length (split_lines source) s.from s.to range w valid.1 valid.2 in
          deleted s source range.0 range.1 _ _ _ _ d3 same held i valid w
            (lines-eq (split_lines source) range.0 range.1
              (Widened-le (split_lines source) s.from s.to range w valid.1))
            front_length gone_length (at_path path ∙ rw (text_eq_self path) refl)
            (without_lines-Holds (split_lines source) range)
      by_write s source range d2 same held i valid w e _ (did_not x d3 e3) =
          not_deleted _ d3 (e3 ∙ e)

      by_source :
          (s : Symbol) (source bytes : Text) (d1 d2 : Disk S)
          → s.id ≡ symbol_id
          → data_at path d.files ≡ some source
          → StandsIn (symbols_of (clean path) source) s (NoId symbol_id) Anything
          → d2.files ≡ d.files
          → bytes ≡ source
          → Deleted path symbol_id d.files (
              let lines = split_lines bytes in
              if range_is_invalid s lines
              then (err (symbol_invalid_range symbol_id), d2)
              else delete_lines before resolves symbols_of path s lines
                  (expand_to_surrounding_blank lines s.from s.to)
                  d2)
      by_source s source bytes d1 d2 same held i e eq =
          rw eq (elim (Bool-cases (range_is_invalid s (split_lines source))) [
            | inl q ↦ rw q (not_deleted _ d2 e)
            | inr q ↦ rw q (
                by_write s source (expand_to_surrounding_blank (split_lines source) s.from s.to) d2
                  same held i (is_range s (split_lines source) q)
                  (expand-Widened (split_lines source) s.from s.to) e _
                  (write-Put before path _ d2))
          ])

      by_place :
          (r : Answer Symbol × Disk S)
          → Located path symbol_id d.files r
          → Deleted path symbol_id d.files
              (delete_located before resolves symbols_of path symbol_id r)
      by_place _ (nowhere x d1 e) = not_deleted x d1 e
      by_place _ (here s source d1 same held i e) = elim (Bool-cases (resolves path)) [
        | inr q ↦ rw q (not_deleted _ d1 e)
        | inl q ↦ rw q (
            by_read (read_file path d1).0 (read_file path d1).1 (unfold read_file in refl)
              (read_file-contents path d1))
      ]
        where
          by_read :
              (r : Read) (d2 : Disk S)
              → d2.files ≡ d1.files
              → ((bytes : Text) → r ≡ contents bytes → data_at path d1.files ≡ some bytes)
              → Deleted path symbol_id d.files (
                  with_read before resolves path
                    (λ bytes d3.
                      let lines = split_lines bytes in
                      if range_is_invalid s lines
                      then (err (symbol_invalid_range symbol_id), d3)
                      else delete_lines before resolves symbols_of path s lines
                          (expand_to_surrounding_blank lines s.from s.to)
                          d3)
                    (r, d2))
          by_read missing d2 e2 held2 = not_deleted _ d2 (e2 ∙ e)
          by_read unreadable d2 e2 held2 = not_deleted _ d2 (e2 ∙ e)
          by_read (contents bytes) d2 e2 held2 =
              let now : data_at path d.files ≡ some bytes =
                subst (λ files. data_at path files ≡ some bytes) e (held2 bytes refl) in
              let both : bytes ≡ source = cc in
              by_source s source bytes d1 d2 same held i (e2 ∙ e) both
