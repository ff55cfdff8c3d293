-- ===== src/Service/Delta.antt =====
-- `lineDelta`: the lines that a replacement adds and removes.
use mathlib.Core.List.{reverse-append, reverse-reverse, reverse-cons}
use mathlib.Core.Path.{subst}
use arno.Base.{
  ℕ, suc, ◌-◌, ◌≤◌, ◌≡◌, refl, ap, ap₂, sym, ◌∙◌, Bool, true, false, List, [], ◌∷◌, ◌++◌, reverse,
  Text, text_eq, text_eq_iff, if◌then◌else◌, length, length-append, length-drop, take, drop,
  take-append-drop, arith,
}
use arno.Service.{shared, delta_of, delta_lines, line_delta}

-- Two lists that do not start with the same line.
abbrev pub Apart : List Text → List Text → Type 0
Apart [] ys = Unit
Apart (x ∷ xs) [] = Unit
Apart (x ∷ xs) (y ∷ ys) = text_eq x y ≡ false

-- The old lines and the new ones are a shared start, what was removed or added, and a shared end;
-- what was removed and what was added start and end with different lines.
pub record Delta (old_lines new_lines : List Text) (counts : ℕ × ℕ) : Type 0 where
  pub front : List Text
  pub back : List Text
  pub taken_out : List Text
  pub put_in : List Text
  pub old_eq : old_lines ≡ front ++ (taken_out ++ back)
  pub new_eq : new_lines ≡ front ++ (put_in ++ back)
  pub counts_eq : counts ≡ (length put_in, length taken_out)
  pub starts_apart : Apart taken_out put_in
  pub ends_apart : Apart (reverse taken_out) (reverse put_in)

length-reverse : (xs : List Text) → length (reverse xs) ≡ length xs
length-reverse [] = refl
length-reverse (x ∷ xs) =
    rw (reverse-cons x xs, length-append (reverse xs) (x ∷ []), length-reverse xs) (omega arith)

record Shared (xs ys : List Text) (n : ℕ) : Type 0 where
  same : take n xs ≡ take n ys
  apart : Apart (drop n xs) (drop n ys)
  left : n ≤ length xs
  right : n ≤ length ys

shared-Shared : (xs ys : List Text) → Shared xs ys (shared xs ys)
unfolding shared
shared-Shared [] ys = record { same = refl; apart = tt; left = omega arith; right = omega arith }
shared-Shared (x ∷ xs) [] = record {
  same = refl;
  apart = tt;
  left = omega arith;
  right = omega arith;
}
shared-Shared (x ∷ xs) (y ∷ ys) = by_test (text_eq x y) refl (shared xs ys) (shared-Shared xs ys)
  where
    by_test :
        (b : Bool)
        → text_eq x y ≡ b
        → (n : ℕ) → Shared xs ys n
        → Shared (x ∷ xs) (y ∷ ys) (if b then suc n else 0)
    by_test true e n h = record {
      same = ap₂ (λ l ls. l ∷ ls) ((text_eq_iff x y).0 e) h.same;
      apart = h.apart;
      left = let le = h.left in omega arith;
      right = let le = h.right in omega arith;
    }
    by_test false e n h = record { same = refl; apart = e; left = omega arith; right = omega arith }

Apart-append : (xs ys zs : List Text) → Apart (xs ++ zs) (ys ++ zs) → Apart xs ys
Apart-append [] ys zs h = tt
Apart-append (x ∷ xs) [] zs h = tt
Apart-append (x ∷ xs) (y ∷ ys) zs h = h

-- What stands in front of the last `m` lines, and those.
reverse-split :
    (m : ℕ) (xs : List Text) → xs ≡ reverse (drop m (reverse xs)) ++ reverse (take m (reverse xs))
reverse-split m xs = sym (
    rw
      (
        ← reverse-append (take m (reverse xs)) (drop m (reverse xs)),
        take-append-drop m (reverse xs),
      )
      (reverse-reverse xs))

length-rest :
    (m n : ℕ) (xs : List Text) → length xs - n - m ≡ length (reverse (drop m (reverse (drop n xs))))
length-rest m n xs =
    rw
      (
        length-reverse (drop m (reverse (drop n xs))),
        length-drop m (reverse (drop n xs)),
        length-reverse (drop n xs),
        length-drop n xs,
      )
      refl

Delta-between :
    (xs ys : List Text) (n m : ℕ)
    → Shared xs ys n
    → Shared (reverse (drop n xs)) (reverse (drop n ys)) m
    → Delta xs ys (length ys - n - m, length xs - n - m)
Delta-between xs ys n m h k = record {
  front = take n xs;
  back = reverse (take m (reverse (drop n xs)));
  taken_out = reverse (drop m (reverse (drop n xs)));
  put_in = reverse (drop m (reverse (drop n ys)));
  old_eq = sym (take-append-drop n xs) ∙ ap (λ l. take n xs ++ l) (reverse-split m (drop n xs));
  new_eq = sym (take-append-drop n ys) ∙ ap₂ (λ f l. f ++ l) (sym h.same) new_rest;
  counts_eq = ap₂ (λ a b. (a, b)) (length-rest m n ys) (length-rest m n xs);
  starts_apart = Apart-append _ _ (reverse (take m (reverse (drop n xs)))) (
      subst
        (λ l.
          Apart l
            (reverse (drop m (reverse (drop n ys))) ++ reverse (take m (reverse (drop n xs)))))
        (reverse-split m (drop n xs)) (subst (λ l. Apart (drop n xs) l) new_rest h.apart));
  ends_apart =
      rw
        (
          reverse-reverse (drop m (reverse (drop n xs))),
          reverse-reverse (drop m (reverse (drop n ys))),
        )
        k.apart;
}
  where
    new_rest :
        drop n ys ≡ reverse (drop m (reverse (drop n ys))) ++ reverse (take m (reverse (drop n xs)))
    new_rest =
        reverse-split m (drop n ys)
        ∙ ap (λ l. reverse (drop m (reverse (drop n ys))) ++ reverse l) (sym k.same)

-- The counts of a replacement are those of the lines between the start and the end that the old and
-- the new text share, and these are as long as they can be.
pub line_delta-Delta :
    (old_text new_text : Text)
    → Delta (delta_lines old_text) (delta_lines new_text) (line_delta old_text new_text)
unfolding delta_of
line_delta-Delta old_text new_text =
    Delta-between _ _ _ _ (shared-Shared (delta_lines old_text) (delta_lines new_text))
      (shared-Shared _ _)
