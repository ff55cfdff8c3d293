-- ===== src/Paging/Pages.antt =====
-- What the page loops choose: the longest run of whole items that fits, and never nothing.
use native.Mathlib.Numerals.{add-one}
use arno.Base.{
  ℕ, zero, suc, ◌+◌, ◌-◌, ◌<◌, ◌≤◌, ◌≡◌, ◌⊎◌, inl, inr, refl, ap, ◌∙◌, ◌&&◌, List, [], ◌∷◌, Text,
  arith, ltb, length, drop, Bool-cases,
}
use arno.Paging.Loops.{page_loop, budget_page, line_page, line_cost, count_loop, cap_budget}

-- The cost of `n` items from item `i` on.
abbrev pub span : (ℕ → ℕ) → ℕ → ℕ → ℕ
span cost i zero = 0
span cost i (suc n) = cost i + span cost (i + 1) n

-- `end` cuts a page of whole items from `offset`: at least one, all within the budget unless the
-- first alone is over it, and one more would not fit.
pub record IsGreedyPage (cost : ℕ → ℕ) (offset total budget end : ℕ) : Type 0 where
  pub progress : offset < end
  pub within : end ≤ total
  pub fits : (end ≡ offset + 1) ⊎ (span cost offset (end - offset) ≤ budget)
  pub maximal : (end ≡ total) ⊎ (budget < span cost offset (end - offset + 1))

module _ (cost : ℕ → ℕ) (offset budget : ℕ) where
  record Chosen (rounds end used stop : ℕ) : Type 0 where
    more : ℕ
    stops : stop ≡ end + more
    bounded : more ≤ rounds
    fits : (end + more ≤ offset + 1) ⊎ (used + span cost end more ≤ budget)
    maximal : (more ≡ rounds) ⊎ (budget < used + span cost end (suc more))
    moves : offset ≡ end → 0 < rounds → 0 < more

  page_loop-Chosen :
      (rounds end used : ℕ)
      → offset ≤ end
      → (end ≤ offset + 1) ⊎ (used ≤ budget)
      → Chosen rounds end used (page_loop cost offset budget rounds end used)
  unfolding page_loop
  page_loop-Chosen zero end used le inv = record {
    more = 0;
    stops = omega arith;
    bounded = omega arith;
    fits = ground arith;
    maximal = inl refl;
    moves = λ _ h. h;
  }
  page_loop-Chosen (suc rounds) end used le inv =
      elim (Bool-cases (ltb offset end && ltb budget (used + cost end))) [
        | inl full ↦ rw full (record {
          more = 0;
          stops = omega arith;
          bounded = omega arith;
          fits = ground arith;
          maximal = ground arith;
          moves = ground arith;
        })
        | inr room ↦ rw room (
            onwards
              (page_loop-Chosen rounds (end + 1) (used + cost end) (omega arith) (ground arith)))
      ]
    where
      onwards :
          Chosen rounds
            (end + 1)
            (used + cost end)
            (page_loop cost offset budget rounds (end + 1) (used + cost end))
          → Chosen
              (suc rounds)
              end
              used
              (page_loop cost offset budget rounds (end + 1) (used + cost end))
      onwards c = record {
        more = suc c.more;
        stops = omega (arith, c.stops);
        bounded = omega (arith, c.bounded);
        fits = ground (arith, c.fits);
        maximal = ground (arith, c.maximal);
        moves = λ _ _. omega arith;
      }

  page_loop-IsGreedyPage :
      (total : ℕ)
      → offset < total
      → IsGreedyPage cost offset total budget
          (page_loop cost offset budget (total - offset) offset 0)
  page_loop-IsGreedyPage total h =
      let c = page_loop-Chosen (total - offset) offset 0 (omega arith) (inl (omega arith)) in
      of_chosen _ c
    where
      of_chosen :
          (stop : ℕ)
          → Chosen (total - offset) offset 0 stop
          → IsGreedyPage cost offset total budget stop
      of_chosen stop c =
          let len : stop - offset ≡ c.more = omega (arith, c.stops) in
          record {
            progress = omega (arith, c.stops, c.moves refl (omega arith));
            within = omega (arith, c.stops, c.bounded);
            fits = rw len (ground (arith, c.fits, c.stops, c.moves refl (omega arith)));
            maximal = rw (len, add-one) (ground (arith, c.maximal, c.stops));
          }

-- `budgetPage` cuts a greedy page, to the budget that was asked or 20,000 tokens, whichever is
-- less.
pub budget_page-IsGreedyPage :
    (cost : ℕ → ℕ) (offset total budget : ℕ)
    → offset < total
    → IsGreedyPage cost offset total (cap_budget budget) (budget_page cost offset total budget)
unfolding budget_page
budget_page-IsGreedyPage cost offset total budget h =
    page_loop-IsGreedyPage cost offset (cap_budget budget) total h

-- `linePage` cuts a greedy page of lines, each counted with its newline.
pub line_page-IsGreedyPage :
    (lines : List Text) (offset max_bytes : ℕ)
    → offset < length lines
    → IsGreedyPage
        (line_cost lines)
        offset
        (length lines)
        max_bytes
        (line_page lines offset max_bytes)
unfolding line_page
line_page-IsGreedyPage lines offset max_bytes h =
    page_loop-IsGreedyPage (line_cost lines) offset max_bytes (length lines) h

module _ {ℓ} {A : Type ℓ} (cost : A → ℕ) where
  -- The cost of the item at a position.
  abbrev pub cost_at : List A → ℕ → ℕ
  cost_at [] n = 0
  cost_at (x ∷ xs) zero = cost x
  cost_at (x ∷ xs) (suc n) = cost_at xs n

  cost_at-drop :
      (xs : List A) (n : ℕ) (m : A) (rest : List A) → drop n xs ≡ m ∷ rest → cost_at xs n ≡ cost m
  cost_at-drop [] zero m rest h = cc
  cost_at-drop [] (suc n) m rest h = cc
  cost_at-drop (x ∷ xs) zero m rest h = ground (arith, h)
  cost_at-drop (x ∷ xs) (suc n) m rest h = cost_at-drop xs n m rest h

  drop-suc :
      (xs : List A) (n : ℕ) (m : A) (rest : List A) → drop n xs ≡ m ∷ rest → drop (suc n) xs ≡ rest
  drop-suc [] zero m rest h = cc
  drop-suc [] (suc n) m rest h = cc
  drop-suc (x ∷ xs) zero m rest h = ground (arith, h)
  drop-suc (x ∷ xs) (suc n) m rest h = drop-suc xs n m rest h

  pub count_loop-page_loop :
      (all : List A) (offset budget : ℕ) (rest : List A) (count used end : ℕ)
      → offset + count ≡ end
      → drop end all ≡ rest
      → offset + count_loop cost budget rest count used
        ≡ page_loop (cost_at all) offset budget (length rest) end used
  unfolding count_loop page_loop
  count_loop-page_loop all offset budget [] count used end e h = e
  count_loop-page_loop all offset budget (m ∷ rest) count used end e h =
      let c = cost_at-drop all end m rest h in
      let d = drop-suc all end m rest h in
      let ih =
        count_loop-page_loop all offset budget rest (count + 1) (used + cost m) (end + 1)
          (omega arith) (ap (λ n. drop n all) add-one' ∙ d) in
      rw c (ground (arith, ih))
    where
      add-one' : end + 1 ≡ suc end
      add-one' = omega arith
