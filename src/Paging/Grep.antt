-- ===== src/Paging/Grep.antt =====
-- `Grep` and `pageGrep`. What `grepAll` answers is an argument.
use arno.Base.{
  not, is_empty, ℕ, ◌+◌, ◌/◌, Bool, true, false, List, [], ◌∷◌, Text, codes, ltb, length, take,
  drop, if◌then◌else◌, GoInt, nat, positive_or, is_unset, trim_space,
}
use arno.Paging.Loops.{cap_budget, count_loop}
use arno.Paging.Store.{
  GrepMatch, GrepResponse, complete, cut, continued, bounded, last, Continuation, blank, Store, put,
  Result, ok, err, resume,
}

pub record GrepRequest : Type 0 where
  pub query : Text
  pub dependency : Text
  pub regex : Bool
  pub ignore_case : Bool
  pub glob : Text
  pub exclude : Text
  pub context : GoInt
  pub limit : GoInt
  pub budget : GoInt
  pub continue : Text

-- The bytes of the context lines, five more for each.
abbrev after_bytes : List Text → ℕ
after_bytes [] = 0
after_bytes (l ∷ ls) = length l + 5 + after_bytes ls

unfoldable pub grep_match_tokens : GrepMatch → ℕ
grep_match_tokens m = (length m.path + length m.text + 8 + after_bytes m.after) / 4 + 1

abbrev pub clip_offset : ℕ → ℕ → ℕ
clip_offset offset size = if ltb size offset then size else offset

-- `revision` is the workspace's current one; the store comes back with the new handle in it.
unfoldable pub page_grep : Text → GrepResponse → ℕ → ℕ → Store → GrepResponse × Store
page_grep revision all offset budget store =
    let budget = cap_budget budget in
    let offset = clip_offset offset (length all.matches) in
    let rest = drop offset all.matches in
    let count = count_loop grep_match_tokens budget rest 0 0 in
    let end = offset + count in
    let page = record all { matches = take count rest; continue = [] } in
    let (handle, store') =
      put (record (blank (codes "grep") revision budget end) { grep = all }) store in
    if ltb end (length all.matches)
    then (
      record page {
        continue = handle;
        truncated = true;
        completeness = cut;
        summary = continued (offset + 1) end handle;
      },
      store',
    )
    else if ltb (length all.matches) all.total
    then (
      record page {
        truncated = true;
        completeness = cut;
        summary = bounded (offset + 1) end (length all.matches);
      },
      store,
    )
    else if ltb 0 offset
    then (
      record page { truncated = false; completeness = complete; summary = last (offset + 1) end },
      store,
    )
    else (page, store)

abbrev pub max_budget_matches : ℕ
max_budget_matches = 2000

-- `if budget <= 0 { budget = entry.budget }`, or no budget at all.
abbrev pub page_all : Text → GoInt → Store → Result GrepResponse → Result GrepResponse × Store
page_all revision budget store (err e) = (err e, store)
page_all revision budget store (ok all) =
    let (page, store') = page_grep revision all 0 (positive_or 0 budget) store in (ok page, store')

abbrev pub page_entry : Text → GoInt → Store → Result Continuation → Result GrepResponse × Store
page_entry revision budget store (err e) = (err e, store)
page_entry revision budget store (ok entry) =
    let (page, store') =
      page_grep revision entry.grep entry.shown (positive_or entry.budget budget) store in
    (ok page, store')

unfoldable pub grep :
    (GrepRequest → Result GrepResponse) → Text → GrepRequest → Store → Result GrepResponse × Store
grep grep_all revision req store =
    let handle = trim_space req.continue in
    if not (is_empty handle)
    then page_entry revision req.budget store (resume handle (codes "grep") revision store)
    else if is_unset req.budget
    then (grep_all req, store)
    else page_all revision req.budget store
        (grep_all (record req { limit = nat max_budget_matches }))
