-- ===== src/Edits/Symbols/Blanks.antt =====
-- `expandToSurroundingBlank`: the lines that the deletion of a symbol removes.
use arno.Base.{
  length-take, length-drop, ℕ, ◌+◌, ◌-◌, ◌≤◌, ◌<◌, ◌≡◌, sym, ap, ◌∙◌, true, false, ◌&&◌, List, ◌++◌,
  Text, ltb, length, take, drop, drop-drop, take-append-drop, Bool-cases, inl, inr, arith,
}
use arno.Edits.Index.{lines_between}
use arno.Edits.Symbols.{is_blank_at, expand_to_surrounding_blank}

-- The lines `from` to `to` are widened by nothing, by one blank line behind them or, where there is
-- none behind, by one blank line in front of them.
pub data Widened (lines : List Text) (from to : ℕ) : ℕ × ℕ → Type 0 where
  behind : to < length lines → is_blank_at lines to ≡ true → Widened lines from to (from, to + 1)
  in_front :
      1 < from
      → is_blank_at lines (from - 2) ≡ true
      → is_blank_at lines to && ltb to (length lines) ≡ false
      → Widened lines from to (from - 1, to)
  as_it_is : Widened lines from to (from, to)

pub expand-Widened :
    (lines : List Text) (from to : ℕ)
    → Widened lines from to (expand_to_surrounding_blank lines from to)
unfolding expand_to_surrounding_blank
expand-Widened lines from to = elim (Bool-cases (ltb to (length lines) && is_blank_at lines to)) [
  | inl e ↦ rw e (behind (ground arith) (ground arith))
  | inr e ↦ rw e (elim (Bool-cases (ltb 1 from && is_blank_at lines (from - 2))) [
    | inl e' ↦ rw e' (in_front (ground arith) (ground arith) (ground arith))
    | inr e' ↦ rw e' as_it_is
  ])
]

-- The lines in front of a range, those of the range and those behind it.
pub lines-eq :
    (lines : List Text) (from to : ℕ)
    → from - 1 ≤ to
    → lines ≡ take (from - 1) lines ++ (lines_between lines from to ++ drop to lines)
lines-eq lines from to le =
    sym (take-append-drop (from - 1) lines)
    ∙ ap (λ l. take (from - 1) lines ++ l)
        (sym (take-append-drop (to - (from - 1)) (drop (from - 1) lines))
          ∙ ap (λ l. lines_between lines from to ++ l)
              (drop-drop (from - 1) (to - (from - 1)) lines ∙ ap (λ n. drop n lines) (omega arith)))

-- A widened range of a file's lines is a range of them.
pub Widened-le :
    (lines : List Text) (from to : ℕ) (r : ℕ × ℕ)
    → Widened lines from to r
    → from ≤ to
    → r.0 - 1 ≤ r.1
Widened-le lines from to _ (behind h b) le = omega arith
Widened-le lines from to _ (in_front h b e) le = omega arith
Widened-le lines from to _ as_it_is le = omega arith

-- A widened range ends within the file, and its pieces have the lengths that it gives.
pub pieces_length :
    (lines : List Text) (from to : ℕ) (r : ℕ × ℕ)
    → Widened lines from to r
    → from ≤ to
    → to ≤ length lines
    → (length (take (r.0 - 1) lines) ≡ r.0 - 1)
      × (length (take (r.0 - 1) lines) + length (lines_between lines r.0 r.1) ≡ r.1)
pieces_length lines from to r w le end =
    let within : (r.0 - 1 ≤ r.1) × (r.1 ≤ length lines) = inside w in
    (
      omega (arith, length-take (r.0 - 1) lines, within.0, within.1),
      omega (
        arith,
        length-take (r.0 - 1) lines,
        length-take (r.1 - (r.0 - 1)) (drop (r.0 - 1) lines),
        length-drop (r.0 - 1) lines,
        within.0,
        within.1,
      ),
    )
  where
    inside : {r : ℕ × ℕ} → Widened lines from to r → (r.0 - 1 ≤ r.1) × (r.1 ≤ length lines)
    inside (behind h b) = (omega arith, omega arith)
    inside (in_front h b e) = (omega arith, omega arith)
    inside as_it_is = (omega arith, omega arith)
