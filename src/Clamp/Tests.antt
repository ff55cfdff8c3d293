-- ===== src/Clamp/Tests.antt =====
-- The clamp at a concrete input, and a round trip of a number.
use arno.Base.{◌≡◌, some, nat, Text, codes, arith}
use arno.Decimal.{itoa, atoi}
use arno.Decimal.RoundTrip.{atoi-itoa}
use arno.Clamp.{clamp}
use arno.Clamp.Cut.{IsCut, clamp-IsCut}

abbrev log : Text
log = codes "first\nsecond\nthird\nfourth\n"

clamp-IsCut_example :
    let (result, omitted) = clamp log (nat 15) (codes "hint") in
    IsCut log 15 (codes "hint") result omitted
clamp-IsCut_example = clamp-IsCut log (codes "hint") 15 (omega arith) (omega arith)

atoi-itoa_example : atoi (itoa 407) ≡ some (nat 407)
atoi-itoa_example = atoi-itoa 407 (omega arith)
