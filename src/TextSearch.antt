-- ===== src/TextSearch.antt =====
-- internal/code/grep.go: the search for a text or a pattern. The files that the walk and the
-- filters select, with the lines of those that can be read and are no binary, are an argument; so
-- are regexp's compilation of a pattern and `strings.ToLower`. A rune that matters here is one
-- byte.
pub mod Tests
pub mod Exact
use arno.Base.{
  ℕ, suc, ◌+◌, ◌-◌, Bool, true, false, not, ◌&&◌, ◌||◌, List, [], ◌∷◌, ◌++◌, map, Option, none,
  some, Text, codes, text_eq, ltb, leb, ◌==◌, length, take, is_empty, if◌then◌else◌, GoInt,
  negative, nat, trim_space, contains, has_prefix,
}
use arno.Base.Sort.{text_leb}
use arno.Paging.Store.{GrepMatch}

abbrev pub backslash : ℕ
backslash = 92

-- `escapeParens`; `escaped` says that a backslash stands before.
unfoldable pub escape_from : Bool → Text → Text
escape_from escaped [] = []
escape_from escaped (c ∷ s) =
    let rest = escape_from (c == backslash && not escaped) s in
    if not escaped && (c == b'(' || c == b')') then backslash ∷ c ∷ rest else c ∷ rest

abbrev pub escape_parens : Text → Text
escape_parens pattern = escape_from false pattern

unfoldable pub unescape_from : Bool → Text → Text
unescape_from escaped [] = []
unescape_from escaped (c ∷ s) =
    let dropped = unescape_from true s in
    let rest = unescape_from false s in if c == backslash && not escaped then dropped else c ∷ rest

abbrev pub unescape_grep : Text → Text
unescape_grep pattern = unescape_from false pattern

unfoldable pub looks_like_pattern : Text → Bool
looks_like_pattern query =
    contains query (codes "|")
    || (contains query (backslash ∷ [])
        || (contains query (codes ".*") || contains query (codes ".+")))

-- A bare `|`: one that no backslash stands before, once every `\|` is gone.
unfoldable pub has_bare_bar : Text → Bool
has_bare_bar [] = false
has_bare_bar (c ∷ []) = c == b'|'
has_bare_bar (c ∷ d ∷ s) =
    let pair = has_bare_bar s in
    let one = has_bare_bar (d ∷ s) in if c == backslash && d == b'|' then pair else c == b'|' || one

abbrev pub is_operator : ℕ → Bool
is_operator c = c == b'|' || (c == b'(' || (c == b')' || (c == b'+' || c == b'?')))

-- The replacer of `grepToRE2`.
unfoldable pub replace_escapes : Text → Text
replace_escapes [] = []
replace_escapes (c ∷ []) = c ∷ []
replace_escapes (c ∷ d ∷ s) =
    let pair = replace_escapes s in
    let one = replace_escapes (d ∷ s) in
    if c == backslash && is_operator d then d ∷ pair else c ∷ one

unfoldable pub grep_to_re2 : Text → Text
grep_to_re2 pattern =
    if not (contains pattern (backslash ∷ b'|' ∷ [])) || has_bare_bar pattern
    then pattern
    else replace_escapes pattern

abbrev pub max_grep_context : ℕ
max_grep_context = 40

abbrev pub max_grep_line_length : ℕ
max_grep_line_length = 400

-- `line[:maxGrepLineLength] + "…"`
abbrev pub clip_line : Text → Text
clip_line line =
    if leb (length line) max_grep_line_length
    then line
    else take max_grep_line_length line ++ 226 ∷ 128 ∷ 166 ∷ []

-- The loop of `grepFile` over the lines from `number` on; `remaining` matches may still be shown.
unfoldable pub grep_lines : (Text → Bool) → ℕ → Text → ℕ → ℕ → List Text → List GrepMatch × ℕ
grep_lines matcher context rel remaining number [] = ([], 0)
grep_lines matcher context rel remaining number (line ∷ lines) =
    let (skipped, skipped_count) = grep_lines matcher context rel remaining (number + 1) lines in
    let (shown, shown_count) = grep_lines matcher context rel (remaining - 1) (number + 1) lines in
    let found : GrepMatch = record {
      path = rel;
      line = number;
      text = clip_line line;
      after = map clip_line (take context lines);
    } in
    if not (matcher line)
    then (skipped, skipped_count)
    else if remaining == 0
    then (skipped, suc skipped_count)
    else (found ∷ shown, suc shown_count)

abbrev pub grep_file : (Text → Bool) → ℕ → Text → ℕ → Option (List Text) → List GrepMatch × ℕ
grep_file matcher context rel remaining none = ([], 0)
grep_file matcher context rel remaining (some lines) =
    grep_lines matcher context rel remaining 1 lines

pub record Found : Type 0 where
  pub matches : List GrepMatch
  pub total : ℕ
  pub files : ℕ

-- The walk over the selected files.
unfoldable pub grep_files : (Text → Bool) → ℕ → ℕ → Found → List (Text × Option (List Text)) → Found
grep_files matcher context limit found [] = found
grep_files matcher context limit found ((rel, lines) ∷ files) =
    let (shown, n) = grep_file matcher context rel (limit - length found.matches) lines in
    grep_files matcher context limit
      (record {
        matches = found.matches ++ shown;
        total = found.total + n;
        files = if ltb 0 n then found.files + 1 else found.files;
      })
      files

-- Sorted by path, then by line.
abbrev pub match_before : GrepMatch → GrepMatch → Bool
match_before a b = if text_eq a.path b.path then leb a.line b.line else text_leb a.path b.path

unfoldable pub put_match : GrepMatch → List GrepMatch → List GrepMatch
put_match m [] = m ∷ []
put_match m (n ∷ ms) =
    let rest = put_match m ms in if match_before m n then m ∷ n ∷ ms else n ∷ rest

unfoldable pub sort_matches : List GrepMatch → List GrepMatch
sort_matches [] = []
sort_matches (m ∷ ms) = put_match m (sort_matches ms)

-- A limit of zero or less is 40; a context is between 0 and its bound.
abbrev pub limit_or_default : GoInt → ℕ
limit_or_default negative = 40
limit_or_default (nat n) = if n == 0 then 40 else n

abbrev pub bounded_context : GoInt → ℕ
bounded_context negative = 0
bounded_context (nat n) = if ltb max_grep_context n then max_grep_context else n

pub record SearchRequest : Type 0 where
  pub query : Text
  pub regex : Bool
  pub ignore_case : Bool
  pub limit : GoInt
  pub context : GoInt

-- How the query was read: as asked, with its parentheses as text, as a pattern or as text.
pub data ReadAs : Type 0 where
  as_asked with_parens_as_text as_regex as_literal : ReadAs

pub record SearchResponse : Type 0 where
  pub query : Text
  pub matches : List GrepMatch
  pub total : ℕ
  pub files : ℕ
  pub truncated : Bool
  pub read_as : ReadAs

pub data Searched : Type 0 where
  results : SearchResponse → Searched
  query_required : Searched
  invalid_regex : Text → Searched

module _ (compile : Text → Bool → Option (Text → Bool)) (to_lower : Text → Text)
    (files : List (Text × Option (List Text))) where
  unfoldable pub build_matcher : Text → Bool → Bool → Option (Text → Bool)
  build_matcher query is_regex ignore_case =
      if is_regex
      then compile (grep_to_re2 query) ignore_case
      else if ignore_case
      then some (λ line. contains (to_lower line) (to_lower query))
      else some (λ line. contains line query)

  abbrev pub respond : SearchRequest → ReadAs → Found → Searched
  respond req read_as found = results (record {
    query = trim_space req.query;
    matches = sort_matches found.matches;
    total = found.total;
    files = found.files;
    truncated = ltb (length found.matches) found.total;
    read_as = read_as;
  })

  abbrev pub search_with : SearchRequest → Option (Text → Bool) → Searched
  search_with req none = invalid_regex (trim_space req.query)
  search_with req (some matcher) = respond req as_asked (
      grep_files matcher (bounded_context req.context) (limit_or_default req.limit)
        (record { matches = []; total = 0; files = 0 }) files)

  -- `grep` where it does not retry.
  unfoldable pub search_once : SearchRequest → Searched
  search_once req =
      let query = trim_space req.query in
      if is_empty query
      then query_required
      else search_with req (build_matcher query req.regex req.ignore_case)

  abbrev pub read_otherwise : ReadAs → Searched → Searched → Searched
  read_otherwise read_as (results r) first =
      if ltb 0 r.total then results (record r { read_as = read_as }) else first
  read_otherwise read_as _ first = first

  abbrev pub if_answered : Searched → Searched → Searched
  if_answered (results r) first = results (record r { read_as = with_parens_as_text })
  if_answered _ first = first

  abbrev pub retried : SearchRequest → Searched → Searched
  retried req query_required = query_required
  retried req (invalid_regex query) =
      let pattern = grep_to_re2 query in
      if req.regex && not (text_eq (escape_parens pattern) pattern)
      then if_answered (search_once (record req { query = escape_parens pattern }))
          (invalid_regex query)
      else invalid_regex query
  retried req (results r) =
      let query = trim_space req.query in
      if not (r.total == 0)
      then results r
      else if not req.regex && looks_like_pattern query
      then read_otherwise as_regex (search_once (record req { regex = true })) (results r)
      else if req.regex
      then read_otherwise as_literal
          (search_once (record req { regex = false; query = unescape_grep query })) (results r)
      else results r

  unfoldable pub index_grep : SearchRequest → Searched
  index_grep req = retried req (search_once req)
