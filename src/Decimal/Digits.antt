-- ===== src/Decimal/Digits.antt =====
-- The bytes of a printed number are digits.
use arno.Base.{
  ℕ, zero, suc, ◌+◌, ◌/◌, ◌%◌, ◌≡◌, false, [], ◌∷◌, refl, Text, arith, ◌==◌, is_space, Bool-cases,
  inl, inr, All,
}
use arno.Decimal.{itoa, digits}

abbrev NoSpace : Text → Type 0
NoSpace = All (λ c. is_space c ≡ false)

digit-is_space : (n : ℕ) → is_space (b'0' + n % 10) ≡ false
unfolding is_space
digit-is_space n = ground arith

digits-NoSpace : (slots n : ℕ) (out : Text) → NoSpace out → NoSpace (digits slots n out)
unfolding digits
digits-NoSpace zero n out h = h
digits-NoSpace (suc slots) n out h = elim (Bool-cases (n == 0)) [
  | inl e ↦ rw e h
  | inr e ↦ rw e (digits-NoSpace slots (n / 10) ((b'0' + n % 10) ∷ out) (digit-is_space n, h))
]

pub itoa-NoSpace : (n : ℕ) → All (λ c. is_space c ≡ false) (itoa n)
unfolding itoa
itoa-NoSpace n = elim (Bool-cases (n == 0)) [
  | inl e ↦ rw e (unfold is_space in (refl, tt))
  | inr e ↦ rw e (digits-NoSpace 20 n [] tt)
]
