-- ===== src/Clamp.antt =====
-- internal/textutil/clamp.go: a text is bounded by cutting out its middle, at line boundaries, and
-- the cut is marked. internal/jobs/clamp.go and internal/workspace/diff.go call it.
pub mod Tests
pub mod Cut
use arno.Base.{
  ℕ, ◌+◌, ◌-◌, ◌*◌, ◌/◌, ◌||◌, Bool, List, [], ◌∷◌, ◌++◌, Option, none, some, Text, codes, newline,
  leb, ◌==◌, length, take, drop, is_empty, if◌then◌else◌, GoInt, negative, nat,
}
use arno.Decimal.{itoa}

-- One byte in front of what stands before the last newline.
abbrev pub extend_line : ℕ → Option Text → Option Text
extend_line c (some p) = some (c ∷ p)
extend_line c none = if c == newline then some [] else none

-- `chunk[:LastIndexByte(chunk, '\n')]`, if there is a newline.
unfoldable pub before_last_newline : Text → Option Text
before_last_newline [] = none
before_last_newline (c ∷ s) = extend_line c (before_last_newline s)

-- `chunk[IndexByte(chunk, '\n')+1:]`, if there is a newline.
unfoldable pub after_first_newline : Text → Option Text
after_first_newline [] = none
after_first_newline (c ∷ s) =
    let rest = after_first_newline s in if c == newline then some s else rest

abbrev pub or_whole : Text → Option Text → Text
or_whole chunk none = chunk
or_whole chunk (some part) = part

-- `trimToLineBoundary`; the second argument is `fromStart`.
unfoldable pub trim_to_line_boundary : Text → Bool → Text
trim_to_line_boundary chunk from_start =
    if from_start
    then or_whole chunk (after_first_newline chunk)
    else or_whole chunk (before_last_newline chunk)

unfoldable pub marker : ℕ → ℕ → Text → Text
marker omitted max_bytes hint =
    codes "\n\n... "
    ++ (itoa omitted
        ++ (codes " bytes omitted (clamped to "
            ++ (itoa max_bytes ++ (codes " bytes; " ++ (hint ++ codes ") ...\n\n")))))

abbrev pub default_hint : Text
default_hint = codes "narrow the scope to see the middle"

-- `int(float64(maxBytes) * 0.4)`, exact for every bound below 2^50.
abbrev pub head_budget : ℕ → ℕ
head_budget max_bytes = max_bytes * 2 / 5

abbrev pub head_part : Text → ℕ → Text
head_part text max_bytes = trim_to_line_boundary (take (head_budget max_bytes) text) Bool.false

abbrev pub tail_part : Text → ℕ → Text
tail_part text max_bytes =
    trim_to_line_boundary (drop (length text - (max_bytes - head_budget max_bytes)) text) Bool.true

abbrev pub cut_middle : Text → ℕ → Text → Text × ℕ
cut_middle text max_bytes hint =
    let head = head_part text max_bytes in
    let tail = tail_part text max_bytes in
    let omitted = length text - length head - length tail in
    (
      head ++ (marker omitted max_bytes (if is_empty hint then default_hint else hint) ++ tail),
      omitted,
    )

unfoldable pub clamp : Text → GoInt → Text → Text × ℕ
clamp text negative hint = (text, 0)
clamp text (nat max_bytes) hint =
    if max_bytes == 0 || leb (length text) max_bytes
    then (text, 0)
    else cut_middle text max_bytes hint
