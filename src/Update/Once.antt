-- ===== src/Update/Once.antt =====
-- `Refresh` asks at most once a day.
use arno.Base.{
  some, Bool, ℕ, ◌≡◌, ◌<◌, ◌+◌, refl, true, false, Option, Text, lt→ltb, Bool-cases, inl, inr,
}
use arno.Update.{
  latest_or, cached_latest, fetched, Checker, CacheRecord, check_every, enabled, is_fresh, refresh,
}

-- The cache as the answer of the server, if any, leaves it.
abbrev pub IsAnswered : ℕ → Option Text → Option CacheRecord → Option CacheRecord → Type 0
IsAnswered now answer before after =
    after
    ≡ some (record { checked_at = now; latest = latest_or (cached_latest before) (fetched answer) })

-- Where the server was asked and the cache could be written, the cache holds the time and the
-- release that the server gave, or the one that it held before where the server gave none; the
-- server is then not asked again for a day, and the cache stays as that left it. Where it could not
-- be written the server was asked as well, and the cache is as it was.
pub refresh_once :
    (c : Checker) (now next : ℕ) (answer later_answer : Option Text) (rewritten : Bool)
    (cache : Option CacheRecord)
    → (refresh c now answer true cache).0 ≡ true
    → next < now + check_every
    → IsAnswered now answer cache (refresh c now answer true cache).1
      × (refresh c next later_answer rewritten (refresh c now answer true cache).1
          ≡ (false, (refresh c now answer true cache).1))
      × (refresh c now answer false cache ≡ (true, cache))
unfolding refresh
refresh_once c now next answer later_answer rewritten cache asked soon =
    elim (Bool-cases (enabled c)) [
      | inr off ↦ let no : false ≡ true = rw off at asked in absurd cc
      | inl on ↦ elim (Bool-cases (is_fresh now cache)) [
        | inl fresh ↦ let no : false ≡ true = rw (on, fresh) at asked in absurd cc
        | inr old ↦ rw (on, old) (refl, rw (lt→ltb next (now + check_every) soon) refl, refl)
      ]
    ]
