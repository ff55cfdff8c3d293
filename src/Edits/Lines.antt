-- ===== src/Edits/Lines.antt =====
-- A file written back by lines reads as those lines.
use mathlib.Core.List.{reverse-append}
use arno.Base.Trim.{Lacks}
use arno.Base.{
  ℕ, ◌-◌, ◌≡◌, refl, ap, Bool, true, false, List, [], ◌∷◌, ◌++◌, append_assoc, append-nil, ap₂, map,
  Text, newline, ◌==◌, length, length-append, take-append, is_empty, if◌then◌else◌, has_prefix,
  join, split, All, All-append, arith,
}
use arno.Edits.{
  carriage_return, has_suffix, trim_suffix, split_lines, line_terminator, returns_first, rejoin,
}

pub has_suffix-append : (x : Text) (c : ℕ) → has_suffix (x ++ c ∷ []) (c ∷ []) ≡ true
has_suffix-append x c =
    unfold has_suffix in rw (reverse-append x (c ∷ [])) (unfold has_prefix in ground arith)

trim_suffix-append : (x : Text) (c : ℕ) → trim_suffix (x ++ c ∷ []) (c ∷ []) ≡ x
trim_suffix-append x c =
    unfold trim_suffix in
    rw (has_suffix-append x c) (
      let e : length (x ++ c ∷ []) - 1 ≡ length x = omega (arith, length-append x (c ∷ [])) in
      rw e (take-append x (c ∷ [])))

split-Lacks : (x : Text) → Lacks (λ c. c == newline) x → split newline x ≡ x ∷ []
unfolding split
split-Lacks [] h = refl
split-Lacks (c ∷ x) (hc, h) = rw (hc, split-Lacks x h) refl

split-append :
    (x r : Text)
    → Lacks (λ c. c == newline) x
    → split newline (x ++ newline ∷ r) ≡ x ∷ split newline r
unfolding split
split-append [] r h = refl
split-append (c ∷ x) r (hc, h) = rw (hc, split-append x r h) refl

-- A line that a file can hold: it has no newline in it and no carriage return at its end.
abbrev pub IsLine : Text → Type 0
IsLine line = Lacks (λ c. c == newline) line × (has_suffix line (carriage_return ∷ []) ≡ false)

-- What stands before the newline of a line terminator.
abbrev return_of : Bool → Text
return_of b = if b then carriage_return ∷ [] else []

terminator-eq :
    (source : Text) → line_terminator source ≡ return_of (returns_first 0 source) ++ newline ∷ []
terminator-eq source = unfold line_terminator in by_return (returns_first 0 source)
  where
    by_return :
        (b : Bool)
        → (if b then carriage_return ∷ newline ∷ [] else newline ∷ []) ≡ return_of b ++ newline ∷ []
    by_return true = refl
    by_return false = refl

with_return-Lacks :
    (b : Bool) (line : Text) → IsLine line → Lacks (λ c. c == newline) (line ++ return_of b)
with_return-Lacks true line h =
    All-append (λ c. (c == newline) ≡ false) line (carriage_return ∷ []) h.0 (refl, tt)
with_return-Lacks false line h = rw (append-nil line) h.0

trim-line :
    (b : Bool) (line : Text)
    → IsLine line
    → trim_suffix (line ++ return_of b) (carriage_return ∷ []) ≡ line
trim-line true line h = trim_suffix-append line carriage_return
trim-line false line h = rw (append-nil line) (unfold trim_suffix in rw h.1 refl)

-- The joined lines, the last one with its carriage return too, split into the lines again.
split-join :
    (b : Bool) (line : Text) (lines : List Text)
    → All IsLine (line ∷ lines)
    → map
        (λ l. trim_suffix l (carriage_return ∷ []))
        (split newline (join (return_of b ++ newline ∷ []) (line ∷ lines) ++ return_of b))
      ≡ line ∷ lines
split-join b line [] (h, hs) =
    unfold join in
    rw (split-Lacks (line ++ return_of b) (with_return-Lacks b line h))
      (ap (λ l. l ∷ []) (trim-line b line h))
split-join b line (next ∷ lines) (h, hs) =
    let rest = join (return_of b ++ newline ∷ []) (next ∷ lines) in
    let step : join (return_of b ++ newline ∷ []) (line ∷ next ∷ lines) ++ return_of b
        ≡ (line ++ return_of b) ++ newline ∷ (rest ++ return_of b) =
      joined rest in
    rw (step, split-append (line ++ return_of b) (rest ++ return_of b) (with_return-Lacks b line h))
      (ap₂ (λ l ls. l ∷ ls) (trim-line b line h) (split-join b next lines hs))
  where
    joined :
        (rest : Text)
        → join (return_of b ++ newline ∷ []) (line ∷ next ∷ lines) ++ return_of b
          ≡ (line ++ return_of b)
            ++ newline ∷ (join (return_of b ++ newline ∷ []) (next ∷ lines) ++ return_of b)
    joined rest = unfold join in simp append_assoc

-- A file that ends with a newline and is written back by lines, with the terminator that it uses,
-- reads as those lines: an edit of some lines leaves the others as they were.
pub split_lines-rejoin :
    (source line : Text) (lines : List Text)
    → has_suffix source (newline ∷ []) ≡ true
    → All IsLine (line ∷ lines)
    → split_lines (rejoin source (line ∷ lines)) ≡ line ∷ lines
split_lines-rejoin source line lines ends h =
    unfold rejoin split_lines in
    rw (ends, terminator-eq source)
      (rw
        (
          ← append_assoc whole (return_of b) (newline ∷ []),
          not_empty (whole ++ return_of b) newline,
          trim_suffix-append (whole ++ return_of b) newline,
        )
        (split-join b line lines h))
  where
    b : Bool
    b = returns_first 0 source

    whole : Text
    whole = join (return_of b ++ newline ∷ []) (line ∷ lines)

    not_empty : (x : Text) (c : ℕ) → is_empty (x ++ c ∷ []) ≡ false
    not_empty [] c = refl
    not_empty (d ∷ x) c = refl
