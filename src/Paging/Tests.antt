-- ===== src/Paging/Tests.antt =====
-- The paging properties at concrete inputs.
use arno.Base.{inl, lookup, false, ℕ, ◌+◌, ◌≡◌, ◌⊎◌, ◌↔◌, refl, [], ◌∷◌, some, codes, nat, arith}
use arno.Paging.Store.{
  GrepMatch, GrepResponse, Continuation, blank, empty, no_matches, put, get, resume, Result, ok,
}
use arno.Paging.Grep.{GrepRequest, page_grep}
use arno.Paging.Find.{page_find, find_result_tokens}
use arno.Paging.Shown.{IsPage, Left, page_find-IsPage}
use arno.Paging.Store.{
  FindResult, FindResponse, ReferenceLocation, ReferencesResponse, complete, own,
}
use arno.Paging.Loops.{budget_page, cap_budget}
use arno.Paging.Pages.{IsGreedyPage, budget_page-IsGreedyPage}
use arno.Paging.Handles.{IsStore, put-IsStore}
use arno.Paging.Resume.{resume_iff}
use arno.Paging.Walk.{walk, walk-eq-matches}

abbrev hit : ℕ → GrepMatch
hit n = record { path = codes "a.go"; line = n; text = codes "func main() {"; after = [] }

abbrev three_hits : GrepResponse
three_hits = record no_matches { matches = hit 1 ∷ hit 5 ∷ hit 9 ∷ []; total = 3; files = 1 }

abbrev request : GrepRequest
request = record {
  query = codes "main";
  dependency = [];
  regex = false;
  ignore_case = false;
  glob = codes "*.go";
  exclude = [];
  context = nat 0;
  limit = nat 0;
  budget = nat 3;
  continue = [];
}

empty-IsStore : IsStore empty
empty-IsStore = record {
  dropped = 0;
  ordered = tt;
  counted = refl;
  bounded = omega arith;
  only_kept = λ k. inl (unfold lookup in refl);
}

abbrev entry : Continuation
entry = record (blank (codes "grep") (codes "r1") 3 1) { grep = three_hits }

abbrev search : GrepRequest → Result GrepResponse
search _ = ok three_hits

walk-eq-matches_example :
    walk search (codes "r1") request 3 (page_grep (codes "r1") three_hits 0 3 empty)
    ≡ three_hits.matches
walk-eq-matches_example =
    walk-eq-matches search (codes "r1") request three_hits 3 3 empty empty-IsStore (omega arith)
      (omega arith)

budget_page-IsGreedyPage_example :
    IsGreedyPage (λ n. n + 2) 1 5 (cap_budget 8) (budget_page (λ n. n + 2) 1 5 8)
budget_page-IsGreedyPage_example = budget_page-IsGreedyPage (λ n. n + 2) 1 5 8 (omega arith)

put-IsStore_example : IsStore (put entry empty).1
put-IsStore_example = put-IsStore entry empty empty-IsStore

resume_iff_example :
    let c = (put entry empty).1 in
    (resume (codes "c1") (codes "grep") (codes "r1") c ≡ ok entry) ↔ (
      (get (codes "c1") c ≡ some entry)
      × (codes "grep" ≡ codes "grep")
      × ((codes "grep" ≡ codes "job_output") ⊎ (codes "r1" ≡ codes "r1")))
resume_iff_example = resume_iff (codes "c1") (codes "grep") (codes "r1") (put entry empty).1 entry

abbrev declaration : FindResult
declaration = record {
  symbol_id = codes "a.go::Main@3";
  symbol = codes "Main";
  kind = codes "func";
  path = codes "a.go";
  start_line = 3;
  end_line = 4;
  body = codes "func Main() {}";
  truncated = false;
}

abbrev found : FindResponse
found = record {
  query = codes "Main";
  results = declaration ∷ declaration ∷ [];
  total = 2;
  completeness = complete;
  continue = [];
  summary = own [];
}

abbrev place : ReferenceLocation
place = record { path = codes "a.go"; line = 7; column = 2; symbol = []; confidence = [] }

abbrev referenced : ReferencesResponse
referenced = record {
  query = codes "Main";
  source = codes "lsp";
  references = place ∷ place ∷ place ∷ [];
  completeness = complete;
  continue = [];
  summary = own [];
}

page_find-IsPage_example :
    let (page, store') = page_find (codes "r1") found 0 5 empty in
    IsPage find_result_tokens found.results page.results 0 5 (λ end.
      Left 2 end
        (record (blank (codes "find") (codes "r1") 5 end) { find = some found })
        empty
        store'
        page.continue)
page_find-IsPage_example =
    page_find-IsPage (codes "r1") found 0 5 empty empty-IsStore (omega arith) (omega arith)
