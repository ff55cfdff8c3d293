-- ===== src/Paging/Find.antt =====
-- `Find`, `pageFind`, `References` and `pageReferences`. What `findAll` and `referencesAll` answer
-- are arguments.
use arno.Base.{
  ℕ, zero, suc, ◌+◌, ◌-◌, ◌/◌, not, List, [], ◌∷◌, Option, none, some, Text, codes, ltb, length,
  take, drop, is_empty, if◌then◌else◌, GoInt, nat, positive_or, is_unset, trim_space,
}
use arno.Paging.Loops.{budget_page}
use arno.Paging.Store.{
  FindResult, FindResponse, ReferenceLocation, ReferencesResponse, cut, continued, bounded, last,
  Continuation, blank, Store, put, Result, ok, err, nil_pointer, resume,
}
use arno.Paging.Grep.{clip_offset}

pub record FindRequest : Type 0 where
  pub dependency : Text
  pub query : Text
  pub kind : Text
  pub limit : GoInt
  pub max_lines : GoInt
  pub budget : GoInt
  pub continue : Text

pub record ReferencesRequest : Type 0 where
  pub path : Text
  pub symbol_id : Text
  pub symbol_name : Text
  pub budget : GoInt
  pub continue : Text

module _ {A : Type 0} where
  -- The cost of the element at an index.
  abbrev pub at_index : (A → ℕ) → List A → ℕ → ℕ
  at_index cost [] n = 0
  at_index cost (x ∷ xs) zero = cost x
  at_index cost (x ∷ xs) (suc n) = at_index cost xs n

  -- `xs[from:to]`
  abbrev pub slice : ℕ → ℕ → List A → List A
  slice from to xs = take (to - from) (drop from xs)

unfoldable pub find_result_tokens : FindResult → ℕ
find_result_tokens r =
    (length r.path + length r.symbol + length r.kind + length r.body + 24) / 4 + 1

unfoldable pub reference_tokens : ReferenceLocation → ℕ
reference_tokens r = (length r.path + length r.symbol + length r.confidence + 20) / 4 + 1

abbrev pub find_end : FindResponse → ℕ → ℕ → ℕ
find_end all offset budget =
    budget_page (at_index find_result_tokens all.results) offset (length all.results) budget

abbrev pub references_end : ReferencesResponse → ℕ → ℕ → ℕ
references_end all offset budget =
    budget_page (at_index reference_tokens all.references) offset (length all.references) budget

unfoldable pub page_find : Text → FindResponse → ℕ → ℕ → Store → FindResponse × Store
page_find revision all offset budget store =
    let offset = clip_offset offset (length all.results) in
    let end = find_end all offset budget in
    let page = record all { results = slice offset end all.results; continue = [] } in
    let (handle, store') =
      put (record (blank (codes "find") revision budget end) { find = some all }) store in
    if ltb end (length all.results)
    then (
      record page {
        continue = handle;
        completeness = cut;
        summary = continued (offset + 1) end handle;
      },
      store',
    )
    else if ltb (length all.results) all.total
    then (
      record page { completeness = cut; summary = bounded (offset + 1) end (length all.results) },
      store,
    )
    else if ltb 0 offset
    then (record page { summary = last (offset + 1) end }, store)
    else (page, store)

unfoldable pub page_references :
    Text → ReferencesResponse → ℕ → ℕ → Store → ReferencesResponse × Store
page_references revision all offset budget store =
    let offset = clip_offset offset (length all.references) in
    let end = references_end all offset budget in
    let page = record all { references = slice offset end all.references; continue = [] } in
    let (handle, store') =
      put (record (blank (codes "references") revision budget end) { refs = some all }) store in
    if ltb end (length all.references)
    then (
      record page {
        continue = handle;
        completeness = cut;
        summary = continued (offset + 1) end handle;
      },
      store',
    )
    else if ltb 0 offset
    then (record page { summary = last (offset + 1) end }, store)
    else (page, store)

abbrev pub max_budget_items : ℕ
max_budget_items = 500

abbrev pub answer : {A : Type 0} → A × Store → Result A × Store
answer (page, store) = (ok page, store)

abbrev find_at : Text → ℕ → ℕ → Store → Option FindResponse → Result FindResponse × Store
find_at revision shown budget store none = (err nil_pointer, store)
find_at revision shown budget store (some all) = answer (page_find revision all shown budget store)

abbrev find_entry : Text → GoInt → Store → Result Continuation → Result FindResponse × Store
find_entry revision budget store (err e) = (err e, store)
find_entry revision budget store (ok entry) =
    find_at revision entry.shown (positive_or entry.budget budget) store entry.find

abbrev find_first : Text → GoInt → Store → Result FindResponse → Result FindResponse × Store
find_first revision budget store (err e) = (err e, store)
find_first revision budget store (ok all) =
    answer (page_find revision all 0 (positive_or 0 budget) store)

unfoldable pub find :
    (FindRequest → Result FindResponse) → Text → FindRequest → Store → Result FindResponse × Store
find find_all revision req store =
    let handle = trim_space req.continue in
    if not (is_empty handle)
    then find_entry revision req.budget store (resume handle (codes "find") revision store)
    else if is_unset req.budget
    then (find_all req, store)
    else find_first revision req.budget store
        (find_all (record req { limit = nat max_budget_items }))

abbrev references_at :
    Text → ℕ → ℕ → Store → Option ReferencesResponse → Result ReferencesResponse × Store
references_at revision shown budget store none = (err nil_pointer, store)
references_at revision shown budget store (some all) =
    answer (page_references revision all shown budget store)

abbrev references_entry :
    Text → GoInt → Store → Result Continuation → Result ReferencesResponse × Store
references_entry revision budget store (err e) = (err e, store)
references_entry revision budget store (ok entry) =
    references_at revision entry.shown (positive_or entry.budget budget) store entry.refs

abbrev references_first :
    Text → GoInt → Store → Result ReferencesResponse → Result ReferencesResponse × Store
references_first revision budget store (err e) = (err e, store)
references_first revision budget store (ok all) =
    if is_unset budget
    then (ok all, store)
    else answer (page_references revision all 0 (positive_or 0 budget) store)

unfoldable pub references :
    (ReferencesRequest → Result ReferencesResponse)
    → Text
    → ReferencesRequest
    → Store
    → Result ReferencesResponse × Store
references references_all revision req store =
    let handle = trim_space req.continue in
    if not (is_empty handle)
    then references_entry revision req.budget store
        (resume handle (codes "references") revision store)
    else references_first revision req.budget store (references_all req)
