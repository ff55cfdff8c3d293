-- ===== src/Edits/Anchor.antt =====
-- Edits beside an anchor that occurs once: the rest of the file stays as it was.
use arno.Base.{
  trim_left, trim_right, trim_space, trim_prefix, ◌⊎◌, newline, ℕ, ◌+◌, ◌<◌, ◌≡◌, refl, ap, ◌∙◌,
  true, false, [], ◌∷◌, ◌++◌, append_assoc, Option, some, Option-cases, Text, text_eq, ◌==◌, ==_iff,
  length, take, drop, is_empty, if◌then◌else◌, has_prefix, index, Bool-cases, inl, inr, arith,
}
use arno.Edits.Occurrence.{index-pieces, index-split, count_from-none, prefix-split}
use arno.Edits.Lines.{has_suffix-append}
use arno.Edits.{
  has_suffix, is_blank, is_indent, trim_suffix, count, Edited, edited, not_edited, text_not_found,
  text_ambiguous, match_line_endings, replace_found, replace_text, insert_into, insert_found,
  insert_before, insert_after, without_repeated_anchor, ensure_leading_newline,
  ensure_trailing_newline,
}

-- How an edit at an anchor ends: `edit` is done where the anchor occurs once, between `front` and
-- `back`; where it does not occur or occurs more often the edit is refused.
pub data AtAnchor (source anchor : Text) (edit : Text → Text → Text) : Edited → Type 0 where
  once :
      (front back : Text)
      → source ≡ front ++ (anchor ++ back)
      → count source anchor ≡ 1
      → AtAnchor source anchor edit (edited (edit front back))
  absent : count source anchor ≡ 0 → AtAnchor source anchor edit (not_edited text_not_found)
  several :
      1 < count source anchor
      → AtAnchor source anchor edit (not_edited (text_ambiguous (count source anchor)))

-- The tests that both edits make.
at_anchor :
    (source anchor : Text) (edit : Text → Text → Text) (found : Option ℕ → Edited)
    → ((n : ℕ)
        → index anchor source ≡ some n
        → found (some n) ≡ edited (edit (take n source) (drop (n + length anchor) source)))
    → AtAnchor source anchor edit (
        if count source anchor == 0
        then not_edited text_not_found
        else if count source anchor == 1
        then found (index anchor source)
        else not_edited (text_ambiguous (count source anchor)))
at_anchor source anchor edit found made = elim (Bool-cases (count source anchor == 0)) [
  | inl e ↦ rw e (absent ((==_iff (count source anchor) 0).0 e))
  | inr e ↦ elim (Bool-cases (count source anchor == 1)) [
    | inr e' ↦ rw (e, e') (several (ground (arith, e, e')))
    | inl e' ↦
        let one : count source anchor ≡ 1 = (==_iff (count source anchor) 1).0 e' in
        elim (Option-cases (index anchor source)) [
          | inl none_found ↦ absurd (omega (arith, one, count_from-none anchor 0 source none_found))
          | inr (n, at) ↦
              rw (e, e', at, made n at)
                (once (take n source) (drop (n + length anchor) source)
                  (index-split anchor source n at) one)
        ]
  ]
]

-- A replacement changes the one occurrence of the anchor, in the file's own line endings, and
-- nothing around it; it is refused when the anchor does not occur or occurs more often.
pub replace_text-AtAnchor :
    (source old_text new_text : Text)
    → is_empty old_text ≡ false
    → let (old_text', new_text') = match_line_endings source old_text new_text in
      AtAnchor source old_text'
        (λ front back. front ++ (new_text' ++ back))
        (replace_text source old_text new_text)
replace_text-AtAnchor source old_text new_text given =
    unfold replace_text in
    rw given (
      at_anchor source _ _
        (λ o. edited (
          replace_found source (match_line_endings source old_text new_text).0
            (match_line_endings source old_text new_text).1 o))
        (λ n _. refl))

-- What the insertion adds behind the anchor begins with a newline, and in front of it ends with
-- one.
added_below :
    (text : Text)
    → (has_prefix (ensure_leading_newline text) (newline ∷ []) ≡ true)
      × ((ensure_leading_newline text ≡ text) ⊎ (ensure_leading_newline text ≡ newline ∷ text))
unfolding ensure_leading_newline
added_below text = elim (Bool-cases (has_prefix text (newline ∷ []))) [
  | inl e ↦ rw e (e, inl refl)
  | inr e ↦ rw e (unfold has_prefix in refl, inr refl)
]

added_above :
    (text : Text)
    → (has_suffix (ensure_trailing_newline text) (newline ∷ []) ≡ true)
      × ((ensure_trailing_newline text ≡ text)
          ⊎ (ensure_trailing_newline text ≡ text ++ newline ∷ []))
unfolding ensure_trailing_newline
added_above text = elim (Bool-cases (has_suffix text (newline ∷ []))) [
  | inl e ↦ rw e (e, inl refl)
  | inr e ↦ rw e (has_suffix-append text newline, inr refl)
]

-- The text that is added: the whole of it, or what is left of it behind or in front of a copy of
-- the anchor that it begins or ends with.
abbrev pub FreedBelow : Text → Text → Text → Type 0
FreedBelow text anchor t = (t ≡ text) ⊎ (trim_left is_blank text ≡ trim_space anchor ++ t)

abbrev pub FreedAbove : Text → Text → Text → Type 0
FreedAbove text anchor t =
    (t ≡ text)
    ⊎ ((has_suffix (trim_right is_blank text) (trim_space anchor) ≡ true)
        × (t ≡ trim_right is_indent (trim_suffix (trim_right is_blank text) (trim_space anchor))))

freed_below :
    (text anchor : Text) → FreedBelow text anchor (without_repeated_anchor text anchor insert_after)
unfolding without_repeated_anchor text_eq trim_prefix
freed_below text anchor = elim (Bool-cases (is_empty (trim_space anchor))) [
  | inl e ↦ rw e (inl refl)
  | inr e ↦ rw e (elim (Bool-cases (has_prefix (trim_left is_blank text) (trim_space anchor))) [
    | inr f ↦ rw f (inl refl)
    | inl f ↦
        rw f
          (elim (Bool-cases (text_eq (trim_space (trim_left is_blank text)) (trim_space anchor))) [
            | inl g ↦ rw g (inl refl)
            | inr g ↦ rw g (inr (prefix-split (trim_left is_blank text) (trim_space anchor) f))
          ])
  ])
]

freed_above :
    (text anchor : Text)
    → FreedAbove text anchor (without_repeated_anchor text anchor insert_before)
unfolding without_repeated_anchor text_eq
freed_above text anchor = elim (Bool-cases (is_empty (trim_space anchor))) [
  | inl e ↦ rw e (inl refl)
  | inr e ↦ rw e (elim (Bool-cases (has_suffix (trim_right is_blank text) (trim_space anchor))) [
    | inr f ↦ rw f (inl refl)
    | inl f ↦
        rw f
          (elim (Bool-cases (text_eq (trim_space (trim_right is_blank text)) (trim_space anchor))) [
            | inl g ↦ rw g (inl refl)
            | inr g ↦ rw g (inr (refl, refl))
          ])
  ])
]

-- An insertion after an anchor keeps the whole file and puts the text directly behind the one
-- occurrence of the anchor; what it adds begins with a newline, which is put there where the text
-- has none. An insertion before an anchor puts it directly in front, and what it adds ends with a
-- newline. Of a text that begins or ends with a copy of the anchor the rest is added. Both are
-- refused when the anchor does not occur or occurs more often.
pub insert_into-AtAnchor :
    (source anchor text : Text)
    → is_empty anchor ≡ false
    → ((below t : Text) × FreedBelow text anchor t
        × (has_prefix below (newline ∷ []) ≡ true)
        × ((below ≡ t) ⊎ (below ≡ newline ∷ t))
        × AtAnchor source anchor
            (λ front back. front ++ (anchor ++ (below ++ back)))
            (insert_into source anchor insert_after text))
      × ((above t : Text) × FreedAbove text anchor t
          × (has_suffix above (newline ∷ []) ≡ true)
          × ((above ≡ t) ⊎ (above ≡ t ++ newline ∷ []))
          × AtAnchor source anchor
              (λ front back. front ++ (above ++ (anchor ++ back)))
              (insert_into source anchor insert_before text))
unfolding text_eq
insert_into-AtAnchor source anchor text given = (
  (
    below,
    _,
    freed_below text anchor,
    (added_below _).0,
    (added_below _).1,
    unfold insert_into in
        rw given (
          at_anchor source anchor _ (insert_found source anchor insert_after text) (λ n at.
            ap edited (
              ap (λ t. t ++ (below ++ drop (n + length anchor) source))
                (index-pieces anchor source n at).0
              ∙ append_assoc (take n source) anchor (below ++ drop (n + length anchor) source)))),
  ),
  (
    above,
    _,
    freed_above text anchor,
    (added_above _).0,
    (added_above _).1,
    unfold insert_into in
        rw given (
          at_anchor source anchor _ (insert_found source anchor insert_before text) (λ n at.
            ap edited
              (ap (λ t. take n source ++ (above ++ t)) (index-pieces anchor source n at).1))),
  ),
)
  where
    below : Text
    below = ensure_leading_newline (without_repeated_anchor text anchor insert_after)

    above : Text
    above = ensure_trailing_newline (without_repeated_anchor text anchor insert_before)
