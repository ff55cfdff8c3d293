-- ===== src/TextSearch/Tests.antt =====
-- The properties of the search at concrete inputs.
use arno.Base.{
  ◌≡◌, refl, Bool, false, List, [], ◌∷◌, Option, none, some, Text, codes, contains, length, ltb,
  min, nat, All, trim_space, trim_left, trim_right, is_space,
}
use arno.TextSearch.{
  SearchRequest, SearchResponse, results, limit_or_default, build_matcher, search_once,
}
use arno.TextSearch.Exact.{matching_all, Shows, search_once-matching}

abbrev files : List (Text × Option (List Text))
files =
    (codes "a.go", some (codes "package a" ∷ codes "// see a" ∷ []))
    ∷ (codes "b.bin", none)
    ∷ (codes "b.go", some (codes "package b" ∷ []))
    ∷ []

abbrev request : SearchRequest
request = record {
  query = codes "package";
  regex = false;
  ignore_case = false;
  limit = nat 1;
  context = nat 0;
}

abbrev no_regex : Text → Bool → Option (Text → Bool)
no_regex pattern ignore_case = none

search_once-matching_example :
    (r : SearchResponse) × (search_once no_regex (λ s. s) files request ≡ results r)
    × (r.total ≡ matching_all (λ line. contains line (codes "package")) files)
    × (length r.matches ≡ min (limit_or_default request.limit) r.total)
    × (r.truncated ≡ ltb (limit_or_default request.limit) r.total)
    × All (Shows (λ line. contains line (codes "package"))) r.matches
unfolding trim_space trim_left trim_right is_space build_matcher
search_once-matching_example =
    search_once-matching no_regex (λ s. s) files request (λ line. contains line (codes "package"))
      refl refl
