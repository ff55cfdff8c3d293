-- ===== src/Paging/Walk.antt =====
-- Following a grep's handles from page to page.
use native.Mathlib.Nat.{add-zero}
use arno.Base.{
  not, is_empty, ℕ, zero, suc, ◌+◌, ◌-◌, ◌<◌, ◌≤◌, ◌≡◌, inl, inr, refl, ap, true, false, List, [],
  ◌++◌, Text, codes, arith, ltb, length, take, drop, drop-drop, take-append-drop, take_of_length-le,
  length-drop, if◌then◌else◌, Bool-cases, ltb→lt, ltb→le, le→ltb, positive_or, trim_space, is_space,
}
use arno.Base.Trim.{trim_space-Lacks}
use arno.Decimal.{max_int}
use arno.Decimal.Digits.{itoa-NoSpace}
use arno.Paging.Loops.{cap_budget, count_loop, budget_page}
use arno.Paging.Store.{
  GrepMatch, GrepResponse, Continuation, blank, Store, put, handle_of, Result, ok, err, resume,
}
use arno.Paging.Grep.{GrepRequest, page_grep, page_entry, grep, grep_match_tokens}
use arno.Paging.Pages.{IsGreedyPage, budget_page-IsGreedyPage, count_loop-page_loop, cost_at}
use arno.Paging.Handles.{IsStore, put-IsStore, fst-put}
use arno.Paging.Resume.{resume-put}

-- How many matches from `offset` on a page shows.
abbrev pub shown_from : GrepResponse → ℕ → ℕ → ℕ
shown_from all offset budget =
    count_loop grep_match_tokens (cap_budget budget) (drop offset all.matches) 0 0

-- The loop of `pageGrep` chooses what `budgetPage` chooses: a greedy page.
pub page_grep-IsGreedyPage :
    (all : GrepResponse) (offset budget : ℕ)
    → offset < length all.matches
    → IsGreedyPage
        (cost_at grep_match_tokens all.matches)
        offset
        (length all.matches)
        (cap_budget budget)
        (offset + shown_from all offset budget)
page_grep-IsGreedyPage all offset budget h = rw same (
    budget_page-IsGreedyPage (cost_at grep_match_tokens all.matches) offset (length all.matches)
      budget h)
  where
    same :
        offset + shown_from all offset budget
        ≡ budget_page (cost_at grep_match_tokens all.matches) offset (length all.matches) budget
    same =
        unfold budget_page in
        rw (← length-drop offset all.matches) (
          count_loop-page_loop grep_match_tokens all.matches offset (cap_budget budget)
            (drop offset all.matches) 0 0 offset (add-zero offset) refl)

abbrev pub go_on :
    (GrepResponse × Store → List GrepMatch) → Result GrepResponse × Store → List GrepMatch
go_on f (err _, store) = []
go_on f (ok page, store) = f (page, store)

-- Calls `grep` again with each page's handle, `fuel` times at most, and joins the matches.
unfoldable pub walk :
    (GrepRequest → Result GrepResponse)
    → Text
    → GrepRequest
    → ℕ
    → GrepResponse × Store
    → List GrepMatch
walk grep_all revision req zero (page, store) = page.matches
walk grep_all revision req (suc fuel) (page, store) =
    let next = grep grep_all revision (record req { continue = page.continue }) store in
    let rest : List GrepMatch = go_on (walk grep_all revision req fuel) next in
    if not (is_empty page.continue) then page.matches ++ rest else page.matches

walk-suc :
    (grep_all : GrepRequest → Result GrepResponse) (revision : Text) (req : GrepRequest) (fuel : ℕ)
    (page : GrepResponse) (store : Store)
    → walk grep_all revision req (suc fuel) (page, store) ≡ (
        if not (is_empty page.continue)
        then page.matches
          ++ go_on
              (walk grep_all revision req fuel)
              (grep grep_all revision (record req { continue = page.continue }) store)
        else page.matches)
unfolding walk
walk-suc grep_all revision req fuel page store = refl

handle-trim : (n : ℕ) → trim_space (handle_of n) ≡ handle_of n
handle-trim n = trim_space-Lacks (handle_of n) (unfold is_space in refl, itoa-NoSpace n)

-- What is kept behind the handle of a page that ends at `end`.
abbrev kept : Text → GrepResponse → ℕ → ℕ → Continuation
kept revision all budget end = record (blank (codes "grep") revision (cap_budget budget) end) {
  grep = all;
}

data Paged (revision : Text) (all : GrepResponse) (offset budget : ℕ) (store : Store)
    (page : GrepResponse) (store' : Store) : Type 0 where
  ends :
      page.continue ≡ []
      → page.matches ≡ drop offset all.matches
      → Paged revision all offset budget store page store'
  goes :
      (end : ℕ)
      → offset < end
      → end < length all.matches
      → page.matches ≡ take (end - offset) (drop offset all.matches)
      → page.continue ≡ (put (kept revision all budget end) store).0
      → store' ≡ (put (kept revision all budget end) store).1
      → Paged revision all offset budget store page store'

page_grep-Paged :
    (revision : Text) (all : GrepResponse) (offset budget : ℕ) (store : Store)
    → offset ≤ length all.matches
    → let result = page_grep revision all offset budget store in
      Paged revision all offset budget store result.0 result.1
page_grep-Paged revision all offset budget store h =
    unfold page_grep in
    rw (le→ltb (length all.matches) offset h)
      (elim (Bool-cases (ltb (offset + n) (length all.matches))) [
        | inl more ↦ rw more (goes (offset + n) (forward more) (ltb→lt _ _ more) matches refl refl)
        | inr over ↦ rw over (elim (Bool-cases (ltb (length all.matches) all.total)) [
          | inl cut ↦ rw cut (ends refl (all_shown over))
          | inr whole ↦ rw whole (elim (Bool-cases (ltb 0 offset)) [
            | inl behind ↦ rw behind (ends refl (all_shown over))
            | inr first ↦ rw first (ends refl (all_shown over))
          ])
        ])
      ])
  where
    n : ℕ
    n = shown_from all offset budget

    forward : ltb (offset + n) (length all.matches) ≡ true → offset < offset + n
    forward more =
        (page_grep-IsGreedyPage all offset budget
          (omega (arith, ltb→lt (offset + n) (length all.matches) more))).progress

    matches :
        take n (drop offset all.matches) ≡ take (offset + n - offset) (drop offset all.matches)
    matches = ap (λ k. take k (drop offset all.matches)) (omega arith)

    all_shown :
        ltb (offset + n) (length all.matches) ≡ false
        → take n (drop offset all.matches) ≡ drop offset all.matches
    all_shown over = take_of_length-le n (drop offset all.matches) (
        omega
          (arith, length-drop offset all.matches, ltb→le (offset + n) (length all.matches) over))

module _ (grep_all : GrepRequest → Result GrepResponse) (revision : Text) (req : GrepRequest)
    (all : GrepResponse) where
  grep-put :
      (offset budget : ℕ) (store : Store) (valid : IsStore store)
      → store.next + 1 ≤ max_int
      → let entry = kept revision all budget offset in
        grep grep_all revision (record req { continue = (put entry store).0 }) (put entry store).1
        ≡ page_entry revision req.budget (put entry store).1 (ok entry)
  grep-put offset budget store valid room =
      let entry = kept revision all budget offset in
      let resumed : resume (handle_of (store.next + 1)) (codes "grep") revision (put entry store).1
          ≡ ok entry =
        rw (fst-put entry store valid) at (resume-put entry store valid room) in
      rw (fst-put entry store valid) (
        unfold grep in
        rw (handle-trim (store.next + 1))
          (ap (page_entry revision req.budget (put entry store).1) resumed))

  rejoin :
      (offset end : ℕ)
      → offset < end
      → take (end - offset) (drop offset all.matches) ++ drop end all.matches
        ≡ drop offset all.matches
  rejoin offset end lt =
      let e : offset + (end - offset) ≡ end = omega arith in
      rw e at (
        rw (drop-drop offset (end - offset) all.matches) at
          (take-append-drop (end - offset) (drop offset all.matches)))

  walk-Paged :
      (fuel offset budget : ℕ) (store : Store) {page : GrepResponse} {store' : Store}
      → IsStore store
      → length all.matches ≤ offset + fuel
      → store.next + fuel ≤ max_int
      → Paged revision all offset budget store page store'
      → walk grep_all revision req fuel (page, store') ≡ drop offset all.matches
  walk-Paged zero offset budget store valid enough room (ends c m) = unfold walk in m
  walk-Paged zero offset budget store valid enough room (goes end lt lt' em ec es) =
      absurd (omega arith)
  walk-Paged (suc fuel) offset budget store {page} {store'} valid enough room (ends c m) =
      rw (walk-suc grep_all revision req fuel page store', c) m
  walk-Paged (suc fuel) offset budget store {page} {store'} valid enough room
        (goes end lt lt' em ec es) =
      let entry = kept revision all budget end in
      let budget' = positive_or (cap_budget budget) req.budget in
      let S = (put entry store).1 in
      let ih =
        walk-Paged fuel end budget' S (put-IsStore entry store valid) (omega arith)
          (unfold put in omega arith) (page_grep-Paged revision all end budget' S (omega arith)) in
      rw
        (
          walk-suc grep_all revision req fuel page store',
          ec,
          es,
          grep-put end budget store valid (omega arith),
          fst-put entry store valid,
        )
        (rw (em, ih) (rejoin offset end lt))

-- A caller that follows the handles gets every match once and in order, however small the budget:
-- the pages joined are the whole answer, after at most one call for each match.
pub walk-eq-matches :
    (grep_all : GrepRequest → Result GrepResponse) (revision : Text) (req : GrepRequest)
    (all : GrepResponse) (fuel budget : ℕ) (store : Store)
    → IsStore store
    → length all.matches ≤ fuel
    → store.next + fuel ≤ max_int
    → walk grep_all revision req fuel (page_grep revision all 0 budget store) ≡ all.matches
walk-eq-matches grep_all revision req all fuel budget store valid enough room =
    walk-Paged grep_all revision req all fuel 0 budget store valid (omega arith) room
      (page_grep-Paged revision all 0 budget store (omega arith))
