-- ===== src/Base/Sort.antt =====
-- Sorting texts bytewise, as Go's `sort.Strings` does.
use mathlib.Core.Bool.{Bool, true, false, ◌||◌}
use mathlib.Core.List.{List, [], ◌∷◌}
use mathlib.Core.Path.{◌≡◌, refl}
use native.Mathlib.Omega.{arith}
use arno.Base.Tests.{ltb, if◌then◌else◌, Bool-cases}
use mathlib.Core.Logic.{inl, inr}
use arno.Base.Lists.{All}
use arno.Base.Bytes.{Text, text_eq}

unfoldable pub text_leb : Text → Text → Bool
text_leb [] t = true
text_leb (c ∷ s) [] = false
text_leb (c ∷ s) (d ∷ t) =
    let rest = text_leb s t in if ltb c d then true else if ltb d c then false else rest

module _ {ℓ} {A : Type ℓ} (key : A → Text) where
  unfoldable pub put_sorted : A → List A → List A
  put_sorted x [] = x ∷ []
  put_sorted x (y ∷ ys) =
      let rest = put_sorted x ys in if text_leb (key x) (key y) then x ∷ y ∷ ys else y ∷ rest

  unfoldable pub sort_by : List A → List A
  sort_by [] = []
  sort_by (x ∷ xs) = put_sorted x (sort_by xs)

  abbrev pub has : Text → List A → Bool
  has k [] = false
  has k (x ∷ xs) = text_eq (key x) k || has k xs

  has-put_sorted : (k : Text) (x : A) (xs : List A) → has k (put_sorted x xs) ≡ has k (x ∷ xs)
  unfolding put_sorted
  has-put_sorted k x [] = refl
  has-put_sorted k x (y ∷ ys) = ground (arith, has-put_sorted k x ys)

  -- Sorting keeps what occurs.
  pub has-sort_by : (k : Text) (xs : List A) → has k (sort_by xs) ≡ has k xs
  unfolding sort_by
  has-sort_by k [] = refl
  has-sort_by k (x ∷ xs) = ground (arith, has-put_sorted k x (sort_by xs), has-sort_by k xs)

  All-put_sorted : (P : A → Type 0) (x : A) (xs : List A) → P x → All P xs → All P (put_sorted x xs)
  unfolding put_sorted
  All-put_sorted P x [] p h = (p, tt)
  All-put_sorted P x (y ∷ ys) p (hy, h) = elim (Bool-cases (text_leb (key x) (key y))) [
    | inl e ↦ rw e (p, (hy, h))
    | inr e ↦ rw e (hy, All-put_sorted P x ys p h)
  ]

  pub All-sort_by : (P : A → Type 0) (xs : List A) → All P xs → All P (sort_by xs)
  unfolding sort_by
  All-sort_by P [] h = tt
  All-sort_by P (x ∷ xs) (hx, h) = All-put_sorted P x (sort_by xs) hx (All-sort_by P xs h)
