-- ===== src/Decimal.antt =====
-- Decimal numbers: `itoa`, which internal/workspace/manager.go and internal/jobs/runner.go declare
-- alike, and strconv.Atoi as the sources call it.
pub mod RoundTrip
pub mod Digits
use arno.Base.{
  ℕ, zero, suc, ◌+◌, ◌-◌, ◌*◌, ◌/◌, ◌%◌, ◌^◌, ◌≡◌, refl, Option, none, some, [], ◌∷◌, Text, codes,
  leb, ◌==◌, ◌&&◌, if◌then◌else◌, GoInt, negative, nat,
}

-- `for n > 0 { i--; digits[i] = '0' + n%10; n /= 10 }`, on the slots left in the buffer.
unfoldable pub digits : ℕ → ℕ → Text → Text
digits zero n out = out
digits (suc slots) n out =
    let rest = digits slots (n / 10) ((b'0' + n % 10) ∷ out) in if n == 0 then out else rest

-- The buffer has 20 bytes, and an int64 at most 19 digits.
unfoldable pub itoa : ℕ → Text
itoa n = if n == 0 then b'0' ∷ [] else digits 20 n []

-- The digits of a number behind the value read so far.
scan : ℕ → Text → Option ℕ
scan n [] = some n
scan n (c ∷ s) =
    let rest = scan (n * 10 + (c - b'0')) s in if leb b'0' c && leb c b'9' then rest else none

abbrev pub max_int : ℕ
max_int = 2 ^ 63 - 1

-- A magnitude within int64, behind a sign.
in_range : ℕ → (ℕ → GoInt) → Option ℕ → Option GoInt
in_range limit sign none = none
in_range limit sign (some n) = if leb n limit then some (sign n) else none

negate : ℕ → GoInt
negate zero = nat 0
negate (suc n) = negative

-- The magnitude: at least one digit and nothing else.
magnitude : Text → Option ℕ
unfolding scan
magnitude [] = none
magnitude (c ∷ s) = scan 0 (c ∷ s)

-- strconv.Atoi
unfoldable pub atoi : Text → Option GoInt
unfolding magnitude in_range negate
atoi [] = none
atoi (c ∷ s) =
    if c == b'-'
    then in_range (max_int + 1) negate (magnitude s)
    else if c == b'+'
    then in_range max_int nat (magnitude s)
    else in_range max_int nat (magnitude (c ∷ s))

itoa_runs : itoa 9223372036854775807 ≡ codes "9223372036854775807"
unfolding itoa digits
itoa_runs = refl

atoi_runs :
    (atoi (codes "042") ≡ some (nat 42))
    × (atoi (codes "-3") ≡ some negative)
    × (atoi (codes "9223372036854775808") ≡ none)
unfolding atoi
atoi_runs = (refl, refl, refl)
