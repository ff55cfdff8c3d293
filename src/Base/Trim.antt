-- ===== src/Base/Trim.antt =====
-- Trimming: what it leaves alone, and what it always leaves.
use mathlib.Core.Bool.{Bool, false}
use mathlib.Core.List.{[], ◌∷◌, reverse, reverse-cons, reverse-reverse}
use mathlib.Core.Path.{◌≡◌, refl, ap, ◌∙◌, subst, sym}
use Prim.Native.Nat.{ℕ}
use arno.Base.Bytes.{Text, trim_left, trim_space, is_space}
use arno.Base.Lists.{All, All-append}

-- No byte of the text passes the test.
abbrev pub Lacks : (ℕ → Bool) → Text → Type 0
Lacks test = All (λ c. test c ≡ false)

Lacks-reverse : (test : ℕ → Bool) (s : Text) → Lacks test s → Lacks test (reverse s)
Lacks-reverse test [] h = tt
Lacks-reverse test (c ∷ s) (hc, h) =
    subst (Lacks test) (sym (reverse-cons c s))
      (All-append (λ c. test c ≡ false) (reverse s) (c ∷ []) (Lacks-reverse test s h) (hc, tt))

pub trim_left-Lacks : (test : ℕ → Bool) (s : Text) → Lacks test s → trim_left test s ≡ s
unfolding trim_left
trim_left-Lacks test [] h = refl
trim_left-Lacks test (c ∷ s) (hc, h) = rw hc

pub trim_space-Lacks : (s : Text) → Lacks is_space s → trim_space s ≡ s
trim_space-Lacks s h =
    unfold trim_space in
    rw (trim_left-Lacks is_space s h) (
      ap reverse (trim_left-Lacks is_space (reverse s) (Lacks-reverse is_space s h))
      ∙ reverse-reverse s)
