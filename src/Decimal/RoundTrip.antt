-- ===== src/Decimal/RoundTrip.antt =====
-- What `itoa` prints `atoi` reads back, so `itoa` is injective.
use native.Mathlib.Nat.{pow-suc}
use arno.Base.{
  ℕ, zero, suc, ◌+◌, ◌/◌, ◌%◌, ◌^◌, ◌<◌, ◌≤◌, ◌≡◌, ◌≢◌, refl, sym, ◌∙◌, ap, some, [], ◌∷◌, Text,
  arith, nat, Bool-cases, inl, inr, ◌==◌, ==_iff,
}
use arno.Decimal.{itoa, atoi, max_int, digits, scan}

tenth-lt : (f n : ℕ) → n < 10 ^ suc f → n / 10 < 10 ^ f
tenth-lt f n h = omega (arith, pow-suc 10 f)

scan-digits : (f n : ℕ) (out : Text) → n < 10 ^ f → scan 0 (digits f n out) ≡ scan n out
unfolding scan digits
scan-digits zero n out h = let e : n ≡ 0 = omega arith in rw e
scan-digits (suc f) n out h =
    ground (arith, tenth-lt f n h, scan-digits f (n / 10) ((b'0' + n % 10) ∷ out))

-- A text that reads as a number is neither empty nor signed.
atoi-scan : (s : Text) (n : ℕ) → s ≢ [] → scan 0 s ≡ some n → n ≤ max_int → atoi s ≡ some (nat n)
unfolding atoi scan
atoi-scan [] n h p b = absurd (h refl)
atoi-scan (c ∷ s) n h p b = ground arith

scan-itoa : (n : ℕ) → n < 10 ^ 20 → scan 0 (itoa n) ≡ some n
unfolding itoa
scan-itoa n h = elim (Bool-cases (n == 0)) [
  | inl e ↦ let z : n ≡ 0 = (==_iff n 0).0 e in rw z (unfold scan in refl)
  | inr e ↦ rw e (scan-digits 20 n [] h ∙ (unfold scan in refl))
]

scan-nil : (n : ℕ) → scan 0 [] ≡ some n → n ≡ 0
unfolding scan
scan-nil n h = ground arith

itoa-ne-nil : (n : ℕ) → n < 10 ^ 20 → itoa n ≢ []
itoa-ne-nil n h e =
    let z : n ≡ 0 = scan-nil n (sym (ap (scan 0) e) ∙ scan-itoa n h) in nonempty n z e
  where
    nonempty : (n : ℕ) → n ≡ 0 → itoa n ≢ []
    nonempty n z = rw z (unfold itoa in λ e. cc)

-- Every revision, job and handle number that fits an int is read back from its digits.
pub atoi-itoa : (n : ℕ) → n ≤ max_int → atoi (itoa n) ≡ some (nat n)
atoi-itoa n h = atoi-scan (itoa n) n (itoa-ne-nil n (omega arith)) (scan-itoa n (omega arith)) h

nat-injective : {n m : ℕ} → some (nat n) ≡ some (nat m) → n ≡ m
nat-injective h = cc

pub itoa-injective : (n m : ℕ) → n ≤ max_int → m ≤ max_int → itoa n ≡ itoa m → n ≡ m
itoa-injective n m hn hm e = nat-injective (sym (atoi-itoa n hn) ∙ ap atoi e ∙ atoi-itoa m hm)
