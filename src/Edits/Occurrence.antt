-- ===== src/Edits/Occurrence.antt =====
-- The first occurrence of a text in another: what stands before it and what from it on.
use arno.Base.{
  ap₂, ℕ, zero, suc, ◌+◌, ◌≡◌, refl, sym, ap, ◌∙◌, true, false, [], ◌∷◌, ◌++◌, Option, none, some,
  Text, ==_iff, length, take, drop, take-append-drop, if◌then◌else◌, has_prefix, index, Bool-cases,
  inl, inr, arith,
}
use arno.Edits.{count_from}

abbrev shifted : Option ℕ → Option ℕ
shifted none = none
shifted (some n) = some (suc n)

index-cons :
    (p : Text) (c : ℕ) (s : Text)
    → index p (c ∷ s) ≡ (if has_prefix (c ∷ s) p then some 0 else shifted (index p s))
unfolding index
index-cons p c s = refl

pub prefix-split : (s p : Text) → has_prefix s p ≡ true → s ≡ p ++ drop (length p) s
unfolding has_prefix
prefix-split s [] h = refl
prefix-split [] (d ∷ p) h = absurd (ground arith)
prefix-split (c ∷ s) (d ∷ p) h =
    let same : c ≡ d = ground (arith, ==_iff c d) in
    let rest : has_prefix s p ≡ true = ground arith in rw same (ap (◌∷◌ d) (prefix-split s p rest))

no_prefix : (s p : Text) → index p s ≡ none → has_prefix s p ≡ false
no_prefix [] p h = unfold index in ground arith
no_prefix (c ∷ s) p h = ground (arith, index-cons p c s)

pub count_from-none : (p : Text) (skip : ℕ) (s : Text) → index p s ≡ none → count_from p skip s ≡ 0
unfolding count_from
count_from-none p skip [] h = refl
count_from-none p zero (c ∷ s) h =
    ground (arith, index-cons p c s, no_prefix (c ∷ s) p h, count_from-none p zero s)
count_from-none p (suc skip) (c ∷ s) h = ground (arith, index-cons p c s, count_from-none p skip s)

shifted-some : (o : Option ℕ) (n : ℕ) → shifted o ≡ some n → (m : ℕ) × (o ≡ some m) × (n ≡ suc m)
shifted-some none n h = absurd (nothing h)
  where
    nothing : none ≡ some n → ⊥
    nothing e = cc
shifted-some (some m) n h = (m, refl, cc)

prefix-take : (s p : Text) → has_prefix s p ≡ true → take (length p) s ≡ p
unfolding has_prefix
prefix-take s [] h = refl
prefix-take [] (d ∷ p) h = absurd (ground arith)
prefix-take (c ∷ s) (d ∷ p) h =
    let same : c ≡ d = ground (arith, ==_iff c d) in
    let rest : has_prefix s p ≡ true = ground arith in
    ap₂ (λ x xs. x ∷ xs) same (prefix-take s p rest)

-- What stands before an occurrence, and what from it on.
at_front :
    (s p : Text) (n : ℕ)
    → has_prefix s p ≡ true
    → n ≡ 0
    → (take (n + length p) s ≡ take n s ++ p) × (drop n s ≡ p ++ drop (n + length p) s)
at_front s p n h z =
    let e : n + length p ≡ length p = omega arith in
    rw (e, z) (prefix-take s p h, prefix-split s p h)

pub index-pieces :
    (p s : Text) (n : ℕ)
    → index p s ≡ some n
    → (take (n + length p) s ≡ take n s ++ p) × (drop n s ≡ p ++ drop (n + length p) s)
index-pieces p [] n h = at_front [] p n (in_nothing h).0 (in_nothing h).1
  where
    in_nothing : index p [] ≡ some n → (has_prefix [] p ≡ true) × (n ≡ 0)
    in_nothing h = unfold index in ground arith
index-pieces p (c ∷ s) n h = elim (Bool-cases (has_prefix (c ∷ s) p)) [
  | inl e ↦ at_front (c ∷ s) p n e (at_zero e)
  | inr e ↦
      let (m, found, next) = shifted-some (index p s) n (rw (index-cons, e) at h) in
      let (before, from) = index-pieces p s m found in
      let e' : n + length p ≡ suc (m + length p) = omega arith in
      rw (e', next) (ap (◌∷◌ c) before, from)
]
  where
    at_zero : has_prefix (c ∷ s) p ≡ true → n ≡ 0
    at_zero e = ground (arith, index-cons p c s)

pub index-split :
    (p s : Text) (n : ℕ) → index p s ≡ some n → s ≡ take n s ++ (p ++ drop (n + length p) s)
index-split p s n h = sym (take-append-drop n s) ∙ ap (λ r. take n s ++ r) (index-pieces p s n h).1
