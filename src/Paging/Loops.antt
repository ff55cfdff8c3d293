-- ===== src/Paging/Loops.antt =====
-- The loops that choose the end of a page: `budgetPage`, `linePage` and the loop of `pageGrep`.
use arno.Base.{ℕ, zero, suc, ◌+◌, ◌-◌, ◌&&◌, List, [], ◌∷◌, Text, ltb, length, if◌then◌else◌}

abbrev pub max_budget_tokens : ℕ
max_budget_tokens = 20000

-- `if budget > maxBudgetTokens { budget = maxBudgetTokens }`
abbrev pub cap_budget : ℕ → ℕ
cap_budget budget = if ltb max_budget_tokens budget then max_budget_tokens else budget

-- `for end < total`, on the rounds that are left; the state is `end` and `used`.
unfoldable pub page_loop : (ℕ → ℕ) → ℕ → ℕ → ℕ → ℕ → ℕ → ℕ
page_loop cost offset budget zero end used = end
page_loop cost offset budget (suc rounds) end used =
    let rest = page_loop cost offset budget rounds (end + 1) (used + cost end) in
    if ltb offset end && ltb budget (used + cost end) then end else rest

unfoldable pub budget_page : (ℕ → ℕ) → ℕ → ℕ → ℕ → ℕ
budget_page cost offset total budget =
    page_loop cost offset (cap_budget budget) (total - offset) offset 0

abbrev pub line_cost : List Text → ℕ → ℕ
line_cost [] n = 0
line_cost (l ∷ ls) zero = length l + 1
line_cost (l ∷ ls) (suc n) = line_cost ls n

unfoldable pub line_page : List Text → ℕ → ℕ → ℕ
line_page lines offset max_bytes =
    page_loop (line_cost lines) offset max_bytes (length lines - offset) offset 0

module _ {ℓ} {A : Type ℓ} where
  -- The loop of `pageGrep` over the matches that are left: how many fit.
  unfoldable pub count_loop : (A → ℕ) → ℕ → List A → ℕ → ℕ → ℕ
  count_loop cost budget [] count used = count
  count_loop cost budget (m ∷ rest) count used =
      let more = count_loop cost budget rest (count + 1) (used + cost m) in
      if ltb 0 count && ltb budget (used + cost m) then count else more
