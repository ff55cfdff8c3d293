-- ===== src/Edits.antt =====
-- internal/code/insert.go, internal/code/replace_text.go and the line edits of
-- internal/code/index.go: the text that an edit leaves in a file. Edits/Index has the operations on
-- the disk.
pub mod Occurrence
pub mod Observer
pub mod Symbols
pub mod Tests
pub mod Refused
pub mod Index
pub mod Anchor
pub mod Lines
use arno.Base.{
  ℕ, zero, suc, ◌+◌, ◌-◌, Bool, true, false, not, ◌&&◌, ◌||◌, List, [], ◌∷◌, ◌++◌, reverse, map,
  Option, none, some, Text, codes, newline, text_eq, ltb, leb, ◌==◌, length, take, drop, is_empty,
  if◌then◌else◌, has_prefix, trim_prefix, trim_left, trim_right, trim_space, join, split, index,
  contains,
}

abbrev pub carriage_return : ℕ
carriage_return = 13

-- strings.HasSuffix and strings.TrimSuffix.
unfoldable pub has_suffix : Text → Text → Bool
has_suffix s p = has_prefix (reverse s) (reverse p)

unfoldable pub trim_suffix : Text → Text → Text
trim_suffix s p = if has_suffix s p then take (length s - length p) s else s

-- strings.Count of a text that is not empty; `skip` bytes belong to the occurrence before.
unfoldable pub count_from : Text → ℕ → Text → ℕ
count_from p skip [] = 0
count_from p (suc skip) (c ∷ s) = count_from p skip s
count_from p zero (c ∷ s) =
    let more = count_from p (length p - 1) s in
    let rest = count_from p zero s in if has_prefix (c ∷ s) p then suc more else rest

abbrev pub count : Text → Text → ℕ
count s p = count_from p 0 s

pub data EditError : Type 0 where
  anchor_required : EditError
  unknown_position : Text → EditError
  text_not_found : EditError
  text_ambiguous : ℕ → EditError

pub data Edited : Type 0 where
  edited : Text → Edited
  not_edited : EditError → Edited

abbrev pub insert_end : Text
insert_end = codes "end"

abbrev pub insert_start : Text
insert_start = codes "start"

abbrev pub insert_before : Text
insert_before = codes "before"

abbrev pub insert_after : Text
insert_after = codes "after"

-- The cut sets " \t\n", "\n" and " \t".
abbrev pub is_blank : ℕ → Bool
is_blank c = c == 32 || (c == 9 || c == newline)

abbrev pub is_newline : ℕ → Bool
is_newline c = c == newline

abbrev pub is_indent : ℕ → Bool
is_indent c = c == 32 || c == 9

unfoldable pub without_repeated_anchor : Text → Text → Text → Text
without_repeated_anchor text anchor position =
    let trimmed = trim_space anchor in
    let above = trim_right is_blank text in
    let below = trim_left is_blank text in
    if is_empty trimmed
    then text
    else if text_eq position insert_before
    then if has_suffix above trimmed && not (text_eq (trim_space above) trimmed)
      then trim_right is_indent (trim_suffix above trimmed)
      else text
    else if text_eq position insert_after
    then if has_prefix below trimmed && not (text_eq (trim_space below) trimmed)
      then trim_prefix below trimmed
      else text
    else text

unfoldable pub ensure_leading_newline : Text → Text
ensure_leading_newline text = if has_prefix text (newline ∷ []) then text else newline ∷ text

unfoldable pub ensure_trailing_newline : Text → Text
ensure_trailing_newline text = if has_suffix text (newline ∷ []) then text else text ++ newline ∷ []

unfoldable pub join_with_newline : Text → Text → Text
join_with_newline first second =
    ensure_trailing_newline (trim_right is_newline first ++ newline ∷ trim_left is_newline second)

-- `source[:index] + text + source[index:]`
abbrev pub splice_at : ℕ → Text → Text → Text
splice_at n text source = take n source ++ (text ++ drop n source)

abbrev pub insert_found : Text → Text → Text → Text → Option ℕ → Edited
insert_found source anchor position text none = not_edited text_not_found
insert_found source anchor position text (some n) =
    let text = without_repeated_anchor text anchor position in
    if text_eq position insert_after
    then edited (splice_at (n + length anchor) (ensure_leading_newline text) source)
    else edited (splice_at n (ensure_trailing_newline text) source)

-- The insertion beside an anchor, which occurs once.
abbrev pub insert_beside : Text → Text → Text → Text → Edited
insert_beside source anchor position text =
    if is_empty anchor
    then not_edited anchor_required
    else if count source anchor == 0
    then not_edited text_not_found
    else if count source anchor == 1
    then insert_found source anchor position text (index anchor source)
    else not_edited (text_ambiguous (count source anchor))

unfoldable pub insert_into : Text → Text → Text → Text → Edited
insert_into source anchor position text =
    let position = if is_empty position && not (is_empty anchor) then insert_after else position in
    if is_empty position || text_eq position insert_end
    then edited (join_with_newline source text)
    else if text_eq position insert_start
    then edited (join_with_newline text source)
    else if text_eq position insert_before || text_eq position insert_after
    then insert_beside source anchor position text
    else not_edited (unknown_position position)

-- strings.Count(text, "\n")
unfoldable pub newlines : Text → ℕ
newlines [] = 0
newlines (c ∷ s) = let rest = newlines s in if c == newline then suc rest else rest

unfoldable pub count_lines_in : Text → ℕ
count_lines_in text =
    let trimmed = trim_suffix text (newline ∷ []) in
    if is_empty trimmed then 0 else newlines trimmed + 1

-- The conversions `toLF` and `toCRLF` of `matchLineEndings`.
unfoldable pub to_lf : Text → Text
to_lf [] = []
to_lf (c ∷ []) = c ∷ []
to_lf (c ∷ d ∷ s) =
    let pair = to_lf s in
    let one = to_lf (d ∷ s) in
    if c == carriage_return && d == newline then newline ∷ pair else c ∷ one

unfoldable pub add_returns : Text → Text
add_returns [] = []
add_returns (c ∷ s) =
    let rest = add_returns s in if c == newline then carriage_return ∷ newline ∷ rest else c ∷ rest

abbrev pub to_crlf : Text → Text
to_crlf text = add_returns (to_lf text)

unfoldable pub match_line_endings : Text → Text → Text → Text × Text
match_line_endings source old_text new_text =
    if not (contains old_text (newline ∷ [])) || contains source old_text
    then (old_text, new_text)
    else if not (text_eq (to_crlf old_text) old_text) && contains source (to_crlf old_text)
    then (to_crlf old_text, to_crlf new_text)
    else if not (text_eq (to_lf old_text) old_text) && contains source (to_lf old_text)
    then (to_lf old_text, to_lf new_text)
    else (old_text, new_text)

-- `strings.Replace(source, old, new, 1)`
abbrev pub replace_found : Text → Text → Text → Option ℕ → Text
replace_found source old_text new_text none = source
replace_found source old_text new_text (some n) =
    take n source ++ (new_text ++ drop (n + length old_text) source)

-- What `ReplaceTextSource` writes, on an anchor with the file's line endings.
abbrev pub replace_matched : Text → Text × Text → Edited
replace_matched source (old_text, new_text) =
    if count source old_text == 0
    then not_edited text_not_found
    else if count source old_text == 1
    then edited (replace_found source old_text new_text (index old_text source))
    else not_edited (text_ambiguous (count source old_text))

unfoldable pub replace_text : Text → Text → Text → Edited
replace_text source old_text new_text =
    if is_empty old_text
    then not_edited anchor_required
    else replace_matched source (match_line_endings source old_text new_text)

unfoldable pub split_lines : Text → List Text
split_lines input =
    if is_empty input
    then [] ∷ []
    else map (λ line. trim_suffix line (carriage_return ∷ []))
        (split newline (trim_suffix input (newline ∷ [])))

-- `first > 0 && source[first-1] == '\r'`, on the byte before.
unfoldable pub returns_first : ℕ → Text → Bool
returns_first before [] = false
returns_first before (c ∷ s) =
    let rest = returns_first c s in if c == newline then before == carriage_return else rest

unfoldable pub line_terminator : Text → Text
line_terminator source =
    if returns_first 0 source then carriage_return ∷ newline ∷ [] else newline ∷ []

-- What `spliceAndWrite` writes; the lines are `from` to `to`, counted from 1.
unfoldable pub rejoin : Text → List Text → Text
rejoin source lines =
    let rewritten = join (line_terminator source) lines in
    if has_suffix source (newline ∷ []) || is_empty source
    then rewritten ++ line_terminator source
    else rewritten

abbrev pub spliced : List Text → ℕ → ℕ → List Text → List Text
spliced lines from to new_lines = take (from - 1) lines ++ (new_lines ++ drop to lines)
