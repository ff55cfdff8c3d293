-- ===== src/Update.antt =====
-- internal/update/update.go: whether a newer release is told of, and when the latest one is asked
-- for. The clock, the environment and the answer of the release server are arguments; a time is a
-- number of seconds. The cache file holds a record or nothing that can be read.
pub mod Tests
pub mod Once
pub mod Order
use arno.Base.{
  ℕ, ◌+◌, Bool, true, false, not, ◌&&◌, ◌||◌, List, [], ◌∷◌, Option, none, some, Text, codes,
  text_eq, ltb, ◌==◌, is_empty, if◌then◌else◌, GoInt, negative, nat, trim_space, trim_prefix, split,
}
use arno.Decimal.{atoi}

pub record Version : Type 0 where
  pub major : ℕ
  pub minor : ℕ
  pub patch : ℕ

-- `core[:cut]` at the first byte of "-+".
unfoldable pub release_core : Text → Text
release_core [] = []
release_core (c ∷ s) = let rest = release_core s in if c == b'-' || c == b'+' then [] else c ∷ rest

abbrev pub version_of : Option GoInt → Option GoInt → Option GoInt → Option Version
version_of (some (nat a)) (some (nat b)) (some (nat c)) =
    some (record { major = a; minor = b; patch = c })
version_of _ _ _ = none

abbrev pub version_from : List Text → Option Version
version_from (a ∷ b ∷ c ∷ []) = version_of (atoi a) (atoi b) (atoi c)
version_from _ = none

unfoldable pub parse : Text → Option Version
parse version =
    version_from (split b'.' (release_core (trim_prefix (trim_space version) (codes "v"))))

-- The first number that differs decides.
abbrev pub later : Version → Version → Bool
later a b =
    if not (a.major == b.major)
    then ltb b.major a.major
    else if not (a.minor == b.minor)
    then ltb b.minor a.minor
    else ltb b.patch a.patch

abbrev pub later_if_both : Option Version → Option Version → Bool
later_if_both (some a) (some b) = later a b
later_if_both _ _ = false

unfoldable pub newer : Text → Text → Bool
newer a b = later_if_both (parse a) (parse b)

pub record CacheRecord : Type 0 where
  pub checked_at : ℕ
  pub latest : Text

pub record Checker : Type 0 where
  pub current : Text
  pub cache_path : Text
  pub getenv : Text → Text

-- `checkEvery`, in seconds.
abbrev pub check_every : ℕ
check_every = 86400

abbrev pub is_version : Option Version → Bool
is_version none = false
is_version (some v) = true

unfoldable pub enabled : Checker → Bool
enabled c =
    if is_empty c.cache_path
      || (text_eq (trim_space (c.getenv (codes "ARNO_UPDATE_CHECK"))) (codes "0")
          || not (is_empty (c.getenv (codes "CI"))))
    then false
    else is_version (parse c.current)

abbrev pub told_of : Checker → Option CacheRecord → Option Text
told_of c none = none
told_of c (some cached) = if newer cached.latest c.current then some cached.latest else none

-- The release that the notice names.
unfoldable pub notice : Checker → Option CacheRecord → Option Text
notice c cache = if enabled c then told_of c cache else none

-- `fetch` refuses a tag that is not a version; `answer` is the tag that the server gave, if any.
abbrev pub fetched : Option Text → Option Text
fetched none = none
fetched (some tag) = if is_version (parse tag) then some tag else none

abbrev pub latest_or : Text → Option Text → Text
latest_or latest none = latest
latest_or latest (some tag) = tag

abbrev pub cached_latest : Option CacheRecord → Text
cached_latest none = []
cached_latest (some cached) = cached.latest

abbrev pub is_fresh : ℕ → Option CacheRecord → Bool
is_fresh now none = false
is_fresh now (some cached) = ltb now (cached.checked_at + check_every)

-- `write` replaces the cache, or fails and leaves it: `written` says whether the file could be
-- written and renamed.
abbrev pub write : Bool → CacheRecord → Option CacheRecord → Option CacheRecord
write written next cache = if written then some next else cache

-- Whether the server is asked, and the cache behind it.
unfoldable pub refresh :
    Checker → ℕ → Option Text → Bool → Option CacheRecord → Bool × Option CacheRecord
refresh c now answer written cache =
    let next : CacheRecord = record {
      checked_at = now;
      latest = latest_or (cached_latest cache) (fetched answer);
    } in
    if not (enabled c)
    then (false, cache)
    else if is_fresh now cache
    then (false, cache)
    else (true, write written next cache)
