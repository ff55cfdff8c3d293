-- ===== src/Update/Tests.antt =====
-- The properties of the update check at concrete inputs.
use arno.Base.{
  ◌↔◌, ◌≡◌, refl, true, false, [], none, some, text_eq, codes, arith, split, trim_space, trim_left,
  trim_right, is_space, has_prefix, trim_prefix,
}
use arno.Decimal.{atoi}
use arno.Update.{Checker, newer, parse, is_version, refresh, enabled, release_core}
use arno.Update.Once.{IsAnswered, refresh_once}
use arno.Update.Order.{IsNewer, newer-total_order}

newer-total_order_example :
    (newer (codes "v1.2.10") (codes "v1.2.9") ≡ true
      ↔ IsNewer (parse (codes "v1.2.10")) (parse (codes "v1.2.9")))
    × (newer (codes "v1.2.10") (codes "v1.2.10") ≡ false)
    × (newer (codes "v1.2.10") (codes "v1.2.9") ≡ true
        → newer (codes "v1.2.9") (codes "v1.2.10") ≡ false)
    × (newer (codes "v1.2.10") (codes "v1.2.9") ≡ true
        → newer (codes "v1.2.9") (codes "1.0.3-rc") ≡ true
        → newer (codes "v1.2.10") (codes "1.0.3-rc") ≡ true)
    × (is_version (parse (codes "v1.2.10")) ≡ true
        → is_version (parse (codes "v1.2.9")) ≡ true
        → newer (codes "v1.2.10") (codes "v1.2.9") ≡ false
        → newer (codes "v1.2.9") (codes "v1.2.10") ≡ false
        → parse (codes "v1.2.10") ≡ parse (codes "v1.2.9"))
newer-total_order_example = newer-total_order (codes "v1.2.10") (codes "v1.2.9") (codes "1.0.3-rc")

abbrev checker : Checker
checker = record { current = codes "v1.2.9"; cache_path = codes "/cache"; getenv = λ name. [] }

asked : (refresh checker 100 (some (codes "v1.2.10")) true none).0 ≡ true
unfolding refresh text_eq atoi enabled parse trim_space trim_left trim_right is_space trim_prefix
    has_prefix release_core split
asked = refl

refresh_once_example :
    IsAnswered 100
      (some (codes "v1.2.10"))
      none
      (refresh checker 100 (some (codes "v1.2.10")) true none).1
    × (refresh checker 200 none true (refresh checker 100 (some (codes "v1.2.10")) true none).1
        ≡ (false, (refresh checker 100 (some (codes "v1.2.10")) true none).1))
    × (refresh checker 100 (some (codes "v1.2.10")) false none ≡ (true, none))
refresh_once_example =
    refresh_once checker 100 200 (some (codes "v1.2.10")) none true none asked (omega arith)
