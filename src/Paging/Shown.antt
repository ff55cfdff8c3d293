-- ===== src/Paging/Shown.antt =====
-- What a page of a find or of references shows, and what its handle stands for.
use arno.Base.{
  ℕ, ◌+◌, ◌<◌, ◌≤◌, ◌≡◌, inl, inr, refl, false, List, [], some, Text, codes, ltb, ltb→lt, length,
  arith, Bool-cases,
}
use arno.Decimal.{max_int}
use arno.Paging.Store.{FindResponse, ReferencesResponse, Continuation, blank, Store, get}
use arno.Paging.Loops.{cap_budget}
use arno.Paging.Pages.{IsGreedyPage, budget_page-IsGreedyPage}
use arno.Paging.Handles.{IsStore, get-put}
use arno.Paging.Grep.{clip_offset}
use arno.Paging.Find.{
  at_index, slice, find_result_tokens, reference_tokens, find_end, references_end, page_find,
  page_references,
}

-- A page that ends at `end`: it is the last one and has no handle, or its handle stands for what
-- follows, in the store that comes back.
pub data Left (total end : ℕ) (entry : Continuation) (store store' : Store) (handle : Text)
    : Type 0 where
  nothing_left :
      end ≡ total → handle ≡ [] → store' ≡ store → Left total end entry store store' handle
  rest_kept :
      end < total → get handle store' ≡ some entry → Left total end entry store store' handle

pub record IsPage {A : Type 0} (cost : A → ℕ) (items shown : List A) (offset budget : ℕ)
    (Rest : ℕ → Type 0) : Type 0 where
  pub end : ℕ
  pub greedy : IsGreedyPage (at_index cost items) offset (length items) (cap_budget budget) end
  pub shown_eq : shown ≡ slice offset end items
  pub rest : Rest end

inside : (offset size : ℕ) → offset < size → clip_offset offset size ≡ offset
inside offset size lt = ground arith

at_end : (end total : ℕ) → end ≤ total → ltb end total ≡ false → end ≡ total
at_end end total le e = ground arith

-- A page of a find is the longest run of whole declarations from the offset on that fits the
-- budget, at least one; its handle, if it has one, stands for the same answer from the end of the
-- page on.
pub page_find-IsPage :
    (revision : Text) (all : FindResponse) (offset budget : ℕ) (store : Store)
    → IsStore store
    → store.next + 1 ≤ max_int
    → offset < length all.results
    → let (page, store') = page_find revision all offset budget store in
      IsPage find_result_tokens all.results page.results offset budget (λ end.
        Left
          (length all.results)
          end
          (record (blank (codes "find") revision budget end) { find = some all })
          store
          store'
          page.continue)
page_find-IsPage revision all offset budget store valid room lt =
    unfold page_find in
    rw (inside offset (length all.results) lt) (elim (Bool-cases (ltb end (length all.results))) [
      | inl more ↦ rw more (record {
        end = end;
        greedy = greedy;
        shown_eq = refl;
        rest = rest_kept (ltb→lt end (length all.results) more) (get-put entry store valid room);
      })
      | inr done ↦
          let ended = at_end end (length all.results) greedy.within done in
          rw done (elim (Bool-cases (ltb (length all.results) all.total)) [
            | inl over ↦ rw over (record {
              end = end;
              greedy = greedy;
              shown_eq = refl;
              rest = nothing_left ended refl refl;
            })
            | inr under ↦ rw under (elim (Bool-cases (ltb 0 offset)) [
              | inl later ↦ rw later (record {
                end = end;
                greedy = greedy;
                shown_eq = refl;
                rest = nothing_left ended refl refl;
              })
              | inr first ↦ rw first (record {
                end = end;
                greedy = greedy;
                shown_eq = refl;
                rest = nothing_left ended refl refl;
              })
            ])
          ])
    ])
  where
    end : ℕ
    end = find_end all offset budget

    entry : Continuation
    entry = record (blank (codes "find") revision budget end) { find = some all }

    greedy :
        IsGreedyPage
          (at_index find_result_tokens all.results)
          offset
          (length all.results)
          (cap_budget budget)
          end
    greedy =
        budget_page-IsGreedyPage (at_index find_result_tokens all.results) offset
          (length all.results) budget lt

-- A page of references is the longest run of whole references from the offset on that fits the
-- budget, at least one; its handle, if it has one, stands for the same answer from its end on.
pub page_references-IsPage :
    (revision : Text) (all : ReferencesResponse) (offset budget : ℕ) (store : Store)
    → IsStore store
    → store.next + 1 ≤ max_int
    → offset < length all.references
    → let (page, store') = page_references revision all offset budget store in
      IsPage reference_tokens all.references page.references offset budget (λ end.
        Left
          (length all.references)
          end
          (record (blank (codes "references") revision budget end) { refs = some all })
          store
          store'
          page.continue)
page_references-IsPage revision all offset budget store valid room lt =
    unfold page_references in
    rw (inside offset (length all.references) lt)
      (elim (Bool-cases (ltb end (length all.references))) [
        | inl more ↦ rw more (record {
          end = end;
          greedy = greedy;
          shown_eq = refl;
          rest =
              rest_kept (ltb→lt end (length all.references) more) (get-put entry store valid room);
        })
        | inr done ↦
            let ended = at_end end (length all.references) greedy.within done in
            rw done (elim (Bool-cases (ltb 0 offset)) [
              | inl later ↦ rw later (record {
                end = end;
                greedy = greedy;
                shown_eq = refl;
                rest = nothing_left ended refl refl;
              })
              | inr first ↦ rw first (record {
                end = end;
                greedy = greedy;
                shown_eq = refl;
                rest = nothing_left ended refl refl;
              })
            ])
      ])
  where
    end : ℕ
    end = references_end all offset budget

    entry : Continuation
    entry = record (blank (codes "references") revision budget end) { refs = some all }

    greedy :
        IsGreedyPage
          (at_index reference_tokens all.references)
          offset
          (length all.references)
          (cap_budget budget)
          end
    greedy =
        budget_page-IsGreedyPage (at_index reference_tokens all.references) offset
          (length all.references) budget lt
