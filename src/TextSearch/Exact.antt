-- ===== src/TextSearch/Exact.antt =====
-- The counts of a search are exact whatever its limit, and what is shown matches.
use mathlib.Core.Path.{subst}
use arno.Base.{
  ℕ, suc, ◌+◌, ◌-◌, ◌≡◌, refl, sym, ap, ap₂, ◌∙◌, Bool, true, false, not, List, [], ◌∷◌, map,
  Option, none, some, Text, ltb, ◌==◌, length, length-append, take, min, is_empty, if◌then◌else◌,
  trim_space, All, All-append, Bool-cases, inl, inr, arith,
}
use arno.Paging.Store.{GrepMatch}
use arno.TextSearch.{
  clip_line, grep_lines, grep_file, Found, grep_files, match_before, put_match, sort_matches,
  limit_or_default, bounded_context, SearchRequest, SearchResponse, as_asked, results,
  build_matcher, search_once,
}

-- How many lines match, in a file and in all of them.
abbrev pub matching : (Text → Bool) → List Text → ℕ
matching matcher [] = 0
matching matcher (line ∷ lines) =
    let rest = matching matcher lines in if matcher line then suc rest else rest

abbrev pub matching_file : (Text → Bool) → Option (List Text) → ℕ
matching_file matcher none = 0
matching_file matcher (some lines) = matching matcher lines

abbrev pub matching_all : (Text → Bool) → List (Text × Option (List Text)) → ℕ
matching_all matcher [] = 0
matching_all matcher ((rel, lines) ∷ files) =
    matching_file matcher lines + matching_all matcher files

-- What is shown of a match is its line, clipped.
abbrev pub Shows : (Text → Bool) → GrepMatch → Type 0
Shows matcher m = (line : Text) × (matcher line ≡ true) × (m.text ≡ clip_line line)

min_zero : (r c : ℕ) → (r == 0) ≡ true → min r c ≡ min r (suc c)
min_zero r c e = ground arith

suc-min : (r c : ℕ) → (r == 0) ≡ false → suc (min (r - 1) c) ≡ min r (suc c)
suc-min r c e = ground arith

cut : (limit total : ℕ) → ltb (min limit total) total ≡ ltb limit total
cut limit total = ground arith

min_rest : (limit a b : ℕ) → min limit a + min (limit - min limit a) b ≡ min limit (a + b)
min_rest limit a b = ground arith

put_match-length : (m : GrepMatch) (ms : List GrepMatch) → length (put_match m ms) ≡ suc (length ms)
unfolding put_match
put_match-length m [] = refl
put_match-length m (n ∷ ms) = elim (Bool-cases (match_before m n)) [
  | inl e ↦ rw e refl
  | inr e ↦ rw e (ap suc (put_match-length m ms))
]

pub sort_matches-length : (ms : List GrepMatch) → length (sort_matches ms) ≡ length ms
unfolding sort_matches
sort_matches-length [] = refl
sort_matches-length (m ∷ ms) =
    put_match-length m (sort_matches ms) ∙ ap suc (sort_matches-length ms)

put_match-All :
    (P : GrepMatch → Type 0) (m : GrepMatch) (ms : List GrepMatch)
    → P m
    → All P ms
    → All P (put_match m ms)
unfolding put_match
put_match-All P m [] h hs = (h, tt)
put_match-All P m (n ∷ ms) h (hn, hs) = elim (Bool-cases (match_before m n)) [
  | inl e ↦ rw e (h, (hn, hs))
  | inr e ↦ rw e (hn, put_match-All P m ms h hs)
]

sort_matches-All :
    (P : GrepMatch → Type 0) (ms : List GrepMatch) → All P ms → All P (sort_matches ms)
unfolding sort_matches
sort_matches-All P [] h = tt
sort_matches-All P (m ∷ ms) (h, hs) =
    put_match-All P m (sort_matches ms) h (sort_matches-All P ms hs)

module _ (matcher : Text → Bool) (context : ℕ) where
  record Exact (remaining : ℕ) (count : ℕ) (r : List GrepMatch × ℕ) : Type 0 where
    total : r.1 ≡ count
    size : length r.0 ≡ min remaining count
    real : All (Shows matcher) r.0

  grep_lines-Exact :
      (rel : Text) (remaining number : ℕ) (lines : List Text)
      → Exact remaining
          (matching matcher lines)
          (grep_lines matcher context rel remaining number lines)
  unfolding grep_lines
  grep_lines-Exact rel remaining number [] = record { total = refl; size = omega arith; real = tt }
  grep_lines-Exact rel remaining number (line ∷ lines) =
      by_match (matcher line) refl (grep_lines-Exact rel remaining (number + 1) lines)
        (grep_lines-Exact rel (remaining - 1) (number + 1) lines)
    where
      by_match :
          (b : Bool)
          → matcher line ≡ b
          → {skipped shown : List GrepMatch × ℕ} → Exact remaining (matching matcher lines) skipped
          → Exact (remaining - 1) (matching matcher lines) shown
          → Exact remaining (if b then suc (matching matcher lines) else matching matcher lines) (
              if not b then skipped else if remaining == 0 then (skipped.0, suc skipped.1) else (
                record {
                  path = rel;
                  line = number;
                  text = clip_line line;
                  after = map clip_line (take context lines);
                }
                    ∷ shown.0,
                suc shown.1,
              ))
      by_match false e h k = h
      by_match true e h k = elim (Bool-cases (remaining == 0)) [
        | inl q ↦ rw q (record {
          total = ap suc h.total;
          size = h.size ∙ min_zero remaining (matching matcher lines) q;
          real = h.real;
        })
        | inr q ↦ rw q (record {
          total = ap suc k.total;
          size = ap suc k.size ∙ suc-min remaining (matching matcher lines) q;
          real = ((line, e, refl), k.real);
        })
      ]

  grep_file-Exact :
      (rel : Text) (remaining : ℕ) (lines : Option (List Text))
      → Exact remaining
          (matching_file matcher lines)
          (grep_file matcher context rel remaining lines)
  grep_file-Exact rel remaining none = record { total = refl; size = omega arith; real = tt }
  grep_file-Exact rel remaining (some lines) = grep_lines-Exact rel remaining 1 lines

  -- What the walk has found when `count` lines of the files before match.
  record Counted (limit count : ℕ) (found : Found) : Type 0 where
    total : found.total ≡ count
    size : length found.matches ≡ min limit count
    real : All (Shows matcher) found.matches

  grep_files-Counted :
      (limit count : ℕ) (found : Found) (files : List (Text × Option (List Text)))
      → Counted limit count found
      → Counted limit
          (count + matching_all matcher files)
          (grep_files matcher context limit found files)
  unfolding grep_files
  grep_files-Counted limit count found [] h = record {
    total = h.total ∙ omega arith;
    size = h.size ∙ ap (min limit) (omega arith);
    real = h.real;
  }
  grep_files-Counted limit count found ((rel, lines) ∷ files) h =
      let k = grep_file-Exact rel (limit - length found.matches) lines in
      let n = matching_file matcher lines in
      let step = grep_files-Counted limit (count + n) _ files (record {
        total = ap₂ (λ a b. a + b) h.total k.total;
        size =
            length-append found.matches _
            ∙ ap₂ (λ a b. a + b) h.size (k.size ∙ ap (λ z. min (limit - z) n) h.size)
            ∙ min_rest limit count n;
        real = All-append (Shows matcher) found.matches _ h.real k.real;
      }) in
      subst (λ z. Counted limit z (grep_files matcher context limit found ((rel, lines) ∷ files)))
        (omega arith) step

module _ (compile : Text → Bool → Option (Text → Bool)) (to_lower : Text → Text)
    (files : List (Text × Option (List Text))) where
  -- A search whose query can be read counts every matching line of every file that it walks, shows
  -- as many as its limit allows, says that it left some out exactly when it did, and shows only
  -- lines that match.
  pub search_once-matching :
      (req : SearchRequest) (matcher : Text → Bool)
      → is_empty (trim_space req.query) ≡ false
      → build_matcher compile to_lower files (trim_space req.query) req.regex req.ignore_case
        ≡ some matcher
      → (r : SearchResponse) × (search_once compile to_lower files req ≡ results r)
        × (r.total ≡ matching_all matcher files)
        × (length r.matches ≡ min (limit_or_default req.limit) r.total)
        × (r.truncated ≡ ltb (limit_or_default req.limit) r.total)
        × All (Shows matcher) r.matches
  unfolding search_once
  search_once-matching req matcher asked built =
      let limit = limit_or_default req.limit in
      let none_yet : Found = record { matches = []; total = 0; files = 0 } in
      let found = grep_files matcher (bounded_context req.context) limit none_yet files in
      let k =
        grep_files-Counted matcher (bounded_context req.context) limit 0 none_yet files
          (record { total = refl; size = omega arith; real = tt }) in
      let counted : found.total ≡ matching_all matcher files = k.total ∙ omega arith in
      let shown : length found.matches ≡ min limit found.total =
        k.size ∙ ap (min limit) (sym k.total) in
      let response : SearchResponse = record {
        query = trim_space req.query;
        matches = sort_matches found.matches;
        total = found.total;
        files = found.files;
        truncated = ltb (length found.matches) found.total;
        read_as = as_asked;
      } in
      (
        response,
        rw (asked, built) refl,
        counted,
        sort_matches-length found.matches ∙ shown,
        ap (λ n. ltb n found.total) shown ∙ cut limit found.total,
        sort_matches-All (Shows matcher) found.matches k.real,
      )
