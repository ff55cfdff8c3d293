-- ===== src/Update/Order.antt =====
-- `newer` orders the versions.
use arno.Base.{◌<◌, ◌⊎◌, ◌↔◌, inl, inr, ◌≡◌, refl, ap, true, false, Option, none, some, Text, arith}
use arno.Update.{Version, later, later_if_both, parse, newer, is_version}

later_trans : (a b c : Version) → later a b ≡ true → later b c ≡ true → later a c ≡ true
later_trans a b c h k = ground arith

later_asymm : (a b : Version) → later a b ≡ true → later b a ≡ false
later_asymm a b h = ground arith

later_total :
    (a b : Version)
    → later a b ≡ false
    → later b a ≡ false
    → (a.major ≡ b.major) × (a.minor ≡ b.minor) × (a.patch ≡ b.patch)
later_total a b h k = (ground arith, ground arith, ground arith)

version-eq :
    (a b : Version) → (a.major ≡ b.major) × (a.minor ≡ b.minor) × (a.patch ≡ b.patch) → a ≡ b
version-eq a b (e, e', e'') i = record { major = e i; minor = e' i; patch = e'' i }

-- The numbers are compared one after the other, and the first that differs is the greater.
abbrev pub IsLater : Version → Version → Type 0
IsLater v w =
    (w.major < v.major)
    ⊎ ((v.major ≡ w.major) × (w.minor < v.minor))
    ⊎ ((v.major ≡ w.major) × (v.minor ≡ w.minor) × (w.patch < v.patch))

-- Both texts are versions, and the first is later.
abbrev pub IsNewer : Option Version → Option Version → Type 0
IsNewer (some v) (some w) = IsLater v w
IsNewer _ _ = ⊥

later-IsLater : (v w : Version) → later v w ≡ true ↔ IsLater v w
later-IsLater v w = (λ h. to h, λ h. from h)
  where
    to : later v w ≡ true → IsLater v w
    to h = ground arith

    from : IsLater v w → later v w ≡ true
    from (inl h) = ground arith
    from (inr (inl (e, h))) = ground arith
    from (inr (inr (e, e', h))) = ground arith

later_if_both-IsNewer : (o p : Option Version) → later_if_both o p ≡ true ↔ IsNewer o p
later_if_both-IsNewer none p = (λ h. absurd cc, λ h. absurd h)
later_if_both-IsNewer (some v) none = (λ h. absurd cc, λ h. absurd h)
later_if_both-IsNewer (some v) (some w) = later-IsLater v w

-- A text is newer than another exactly when both are versions and, of their three numbers, the
-- first that differs is greater in it. `newer` is a strict order on texts, total on those that are
-- versions: no text is newer than itself, of two at most one is newer, what is newer than a newer
-- one is newer, and two versions neither of which is newer have the same numbers.
pub newer-total_order :
    (a b c : Text)
    → (newer a b ≡ true ↔ IsNewer (parse a) (parse b))
      × (newer a a ≡ false)
      × (newer a b ≡ true → newer b a ≡ false)
      × (newer a b ≡ true → newer b c ≡ true → newer a c ≡ true)
      × (is_version (parse a) ≡ true
          → is_version (parse b) ≡ true
          → newer a b ≡ false
          → newer b a ≡ false
          → parse a ≡ parse b)
unfolding newer
newer-total_order a b c = (
  later_if_both-IsNewer (parse a) (parse b),
  irreflexive (parse a),
  asymmetric (parse a) (parse b),
  transitive (parse a) (parse b) (parse c),
  total (parse a) (parse b),
)
  where
    irreflexive : (v : Option Version) → later_if_both v v ≡ false
    irreflexive none = refl
    irreflexive (some v) = ground arith

    asymmetric : (v w : Option Version) → later_if_both v w ≡ true → later_if_both w v ≡ false
    asymmetric none w h = absurd cc
    asymmetric (some v) none h = absurd cc
    asymmetric (some v) (some w) h = later_asymm v w h

    transitive :
        (v w x : Option Version)
        → later_if_both v w ≡ true
        → later_if_both w x ≡ true
        → later_if_both v x ≡ true
    transitive none w x h k = absurd cc
    transitive (some v) none x h k = absurd cc
    transitive (some v) (some w) none h k = absurd cc
    transitive (some v) (some w) (some x) h k = later_trans v w x h k

    total :
        (v w : Option Version)
        → is_version v ≡ true
        → is_version w ≡ true
        → later_if_both v w ≡ false
        → later_if_both w v ≡ false
        → v ≡ w
    total none w hv hw h k = absurd cc
    total (some v) none hv hw h k = absurd cc
    total (some v) (some w) hv hw h k = ap some (version-eq v w (later_total v w h k))
