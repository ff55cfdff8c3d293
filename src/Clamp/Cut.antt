-- ===== src/Clamp/Cut.antt =====
-- What a clamp keeps and what it drops.
use mathlib.Core.Path.{subst}
use arno.Base.{
  ℕ, ◌+◌, ◌-◌, ◌<◌, ◌≤◌, ◌≡◌, inl, inr, refl, sym, ap, ◌∙◌, ◌||◌, true, false, [], ◌∷◌, ◌++◌,
  append-nil, append_assoc, Option, none, some, Option-cases, Text, newline, arith, leb, ◌==◌,
  length, take, drop, is_empty, length-append, take-append-drop, length-take, length-drop,
  drop-drop, Bool-cases, if◌then◌else◌, nat,
}
use arno.Clamp.{
  clamp, marker, default_hint, head_part, tail_part, head_budget, trim_to_line_boundary,
  before_last_newline, after_first_newline, or_whole, extend_line,
}

-- A part of a chunk at one of its ends, with what was trimmed off.
record Front (chunk part : Text) : Type 0 where
  rest : Text
  joins : chunk ≡ part ++ rest

record Back (chunk part : Text) : Type 0 where
  rest : Text
  joins : chunk ≡ rest ++ part

no_line : (c : ℕ) (s p : Text) → extend_line c none ≡ some p → Front (c ∷ s) p
no_line c s p h = record { rest = c ∷ s; joins = ground arith }

one_more : (c : ℕ) (s p q : Text) → Front s q → extend_line c (some q) ≡ some p → Front (c ∷ s) p
one_more c s p q f h = record { rest = f.rest; joins = cc (f.joins) }

before-found : (chunk p : Text) → before_last_newline chunk ≡ some p → Front chunk p
unfolding before_last_newline
before-found [] p h = record { rest = []; joins = cc }
before-found (c ∷ s) p h = elim (Option-cases (before_last_newline s)) [
  | inl e ↦ no_line c s p (subst (λ o. extend_line c o ≡ some p) e h)
  | inr (q, e) ↦ one_more c s p q (before-found s q e) (subst (λ o. extend_line c o ≡ some p) e h)
]

after-found : (chunk p : Text) → after_first_newline chunk ≡ some p → Back chunk p
unfolding after_first_newline
after-found [] p h = record { rest = []; joins = cc }
after-found (c ∷ s) p h = elim (Bool-cases (c == newline)) [
  | inl e ↦ record { rest = c ∷ []; joins = cc (rw e at h) }
  | inr e ↦
      let b = after-found s p (rw e at h) in record { rest = c ∷ b.rest; joins = cc (b.joins) }
]

head-Front : (chunk : Text) → Front chunk (trim_to_line_boundary chunk false)
head-Front chunk = unfold trim_to_line_boundary in by_found (before_last_newline chunk) refl
  where
    by_found : (o : Option Text) → before_last_newline chunk ≡ o → Front chunk (or_whole chunk o)
    by_found none e = record { rest = []; joins = sym (append-nil chunk) }
    by_found (some p) e = before-found chunk p e

tail-Back : (chunk : Text) → Back chunk (trim_to_line_boundary chunk true)
tail-Back chunk = unfold trim_to_line_boundary in by_found (after_first_newline chunk) refl
  where
    by_found : (o : Option Text) → after_first_newline chunk ≡ o → Back chunk (or_whole chunk o)
    by_found none e = record { rest = []; joins = refl }
    by_found (some p) e = after-found chunk p e

-- The answer keeps a beginning and an end of the text and says how many bytes lie between them.
pub record IsCut (text : Text) (max_bytes : ℕ) (hint result : Text) (omitted : ℕ) : Type 0 where
  pub head : Text
  pub middle : Text
  pub tail : Text
  pub text_eq : text ≡ head ++ (middle ++ tail)
  pub result_eq :
      result
      ≡ head ++ (marker omitted max_bytes (if is_empty hint then default_hint else hint) ++ tail)
  pub counted : length middle ≡ omitted
  pub some_omitted : 0 < omitted
  pub kept : length head + length tail ≤ max_bytes

regroup :
    (text a b c h r r' t : Text)
    → text ≡ a ++ (b ++ c)
    → a ≡ h ++ r
    → c ≡ r' ++ t
    → text ≡ h ++ ((r ++ (b ++ r')) ++ t)
regroup text a b c h r r' t e ea ec = rw (e, ea, ec) (simp append_assoc)

-- A text in three pieces, cut at `i` and at `j`.
three_pieces :
    (text : Text) (i j : ℕ)
    → i ≤ j
    → text ≡ take i text ++ (take (j - i) (drop i text) ++ drop j text)
three_pieces text i j h =
    let e : i + (j - i) ≡ j = omega arith in
    let rest : drop j text ≡ drop (j - i) (drop i text) =
      rw e at (sym (drop-drop i (j - i) text)) in
    rw (rest, take-append-drop (j - i) (drop i text), take-append-drop i text)

module _ (text hint : Text) (max_bytes : ℕ) (pos : 0 < max_bytes)
    (over : max_bytes < length text) where
  abbrev from : ℕ
  from = length text - (max_bytes - head_budget max_bytes)

  abbrev front : Front (take (head_budget max_bytes) text) (head_part text max_bytes)
  front = head-Front (take (head_budget max_bytes) text)

  abbrev back : Back (drop from text) (tail_part text max_bytes)
  back = tail-Back (drop from text)

  abbrev gone : Text
  gone =
      front.rest
      ++ (take (from - head_budget max_bytes) (drop (head_budget max_bytes) text) ++ back.rest)

  pieces : text ≡ head_part text max_bytes ++ (gone ++ tail_part text max_bytes)
  pieces =
      regroup text _ _ _ _ _ _ _ (three_pieces text (head_budget max_bytes) from (omega arith))
        front.joins back.joins

  sizes :
      length text
      ≡ length (head_part text max_bytes) + (length gone + length (tail_part text max_bytes))
  sizes =
      ap length pieces
      ∙ length-append _ _
      ∙ ap (λ n. length (head_part text max_bytes) + n) (length-append gone _)

  head_size : length (head_part text max_bytes) ≤ head_budget max_bytes
  head_size = omega (
    arith,
    ap length front.joins,
    length-append (head_part text max_bytes) front.rest,
    length-take (head_budget max_bytes) text,
  )

  tail_size : length (tail_part text max_bytes) ≤ max_bytes - head_budget max_bytes
  tail_size = omega (
    arith,
    ap length back.joins,
    length-append back.rest (tail_part text max_bytes),
    length-drop from text,
  )

  -- A text over a positive bound is cut in one place: a beginning and an end of it stay, at most
  -- `max_bytes` together, and the marker between them and the second result give the exact,
  -- positive number of the bytes that are gone.
  pub clamp-IsCut :
      let (result, omitted) = clamp text (nat max_bytes) hint in
      IsCut text max_bytes hint result omitted
  clamp-IsCut =
      unfold clamp in
      rw long (record {
        head = head_part text max_bytes;
        middle = gone;
        tail = tail_part text max_bytes;
        text_eq = pieces;
        result_eq = refl;
        counted = omega (arith, sizes);
        some_omitted = omega (arith, sizes, head_size, tail_size);
        kept = omega (arith, head_size, tail_size);
      })
    where
      long : (max_bytes == 0 || leb (length text) max_bytes) ≡ false
      long = ground arith
