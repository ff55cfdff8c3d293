-- ===== src/Disk/Restores.antt =====
-- `Files`: the loop that puts back what was written, and what it leaves where a restore fails.
use mathlib.Core.Path.{subst}
use arno.Base.{
  ◌≡◌, refl, ap, ◌∙◌, Bool, true, false, ◌||◌, List, [], ◌∷◌, ◌++◌, Option, none, some, Text,
  text_eq, text_eq_iff, if◌then◌else◌, Dict, All, arith,
}
use arno.Disk.{apply_change, Node, OsError, Read, Disk, Change, restore, restore_all, noted}
use arno.Disk.Atomic.{data_at}
use arno.Disk.AllOrNothing.{changes_of, mentions, final, Put, did, did_not, restore-Put}

-- The saved value of each change is what its path held.
abbrev pub Saved : Dict Node → Change × Option Text → Type 0
Saved start (c, old) = old ≡ data_at c.path start

abbrev pub is_named : Text → List Text → Bool
is_named p [] = false
is_named p (q ∷ qs) = text_eq q p || is_named p qs

-- The value put back first, or by the rest, or none.
settle :
    (here later : Bool) (held after start old now : Option Text)
    → held ≡ (if later then start else after)
    → after ≡ (if here then old else now)
    → (here ≡ true → old ≡ start)
    → held ≡ (if here || later then start else now)
settle true true held after start old now e e' h = e
settle false true held after start old now e e' h = e
settle false false held after start old now e e' h = e ∙ e'
settle true false held after start old now e e' h = e ∙ e' ∙ h refl

module _ {ℓ} {S : Type ℓ} (before : Text → Read → S → S) where
  -- Every saved value is put back where it was, one after the other; the list names the paths at
  -- which that failed, and no other.
  pub data PutBack : List (Change × Option Text) → List Text → Disk S → Disk S → Type ℓ where
    nothing_left : (d : Disk S) → PutBack [] [] d d
    was_put_back :
        (c : Change) (old : Option Text) (rest : List (Change × Option Text)) (failed : List Text)
        (d d' end : Disk S)
        → restore before c.path old d ≡ (none, d')
        → PutBack rest failed d' end
        → PutBack ((c, old) ∷ rest) failed d end
    could_not :
        (c : Change) (old : Option Text) (rest : List (Change × Option Text)) (failed : List Text)
        (e : OsError) (d d' end : Disk S)
        → restore before c.path old d ≡ (some e, d')
        → PutBack rest failed d' end
        → PutBack ((c, old) ∷ rest) (c.path ∷ failed) d end

  pub restore_all-PutBack :
      (w : List (Change × Option Text)) (d : Disk S)
      → PutBack w (restore_all before w d).0 d (restore_all before w d).1
  unfolding restore_all
  restore_all-PutBack [] d = nothing_left d
  restore_all-PutBack ((c, old) ∷ w) d =
      by_end (restore before c.path old d) refl
        (restore_all-PutBack w (restore before c.path old d).1)
    where
      by_end :
          (r : Option OsError × Disk S)
          → restore before c.path old d ≡ r
          → PutBack w (restore_all before w r.1).0 r.1 (restore_all before w r.1).1
          → PutBack
              ((c, old) ∷ w)
              (noted c.path r.0 (restore_all before w r.1).0)
              d
              (restore_all before w r.1).1
      by_end (none, d') e h = was_put_back c old w _ d d' _ e h
      by_end (some x, d') e h = could_not c old w _ x d d' _ e h

  -- Behind the restores every path that is put back, and is not named, holds what it held.
  pub restore_all-start :
      (start : Dict Node) (w : List (Change × Option Text)) (d : Disk S) (p : Text)
      → All (Saved start) w
      → is_named p (restore_all before w d).0 ≡ false
      → data_at p (restore_all before w d).1.files
        ≡ (if mentions p w then data_at p start else data_at p d.files)
  unfolding restore_all
  restore_all-start start [] d p h e = refl
  restore_all-start start ((c, old) ∷ w) d p (hc, h) e =
      by_put (restore before c.path old d) (restore-Put before c.path old d) e
        (λ e'. restore_all-start start w (restore before c.path old d).1 p h e')
    where
      by_put :
          (r : Option OsError × Disk S)
          → Put c.path old d.files r
          → is_named p (noted c.path r.0 (restore_all before w r.1).0) ≡ false
          → (is_named p (restore_all before w r.1).0 ≡ false
              → data_at p (restore_all before w r.1).1.files
                ≡ (if mentions p w then data_at p start else data_at p r.1.files))
          → data_at p (restore_all before w r.1).1.files
            ≡ (if text_eq c.path p || mentions p w then data_at p start else data_at p d.files)
      by_put _ (did d' at_path) e go =
          settle (text_eq c.path p) (mentions p w) _ _ _ old _ (go e) (at_path p)
            (λ eq. hc ∙ ap (λ k. data_at k start) ((text_eq_iff c.path p).0 eq))
      by_put _ (did_not x d' same) e go =
          let apart : text_eq c.path p ≡ false = ground arith in
          let others : is_named p (restore_all before w d').0 ≡ false = ground arith in
          rw apart (
            subst
              (λ files.
                data_at p (restore_all before w d').1.files
                ≡ (if mentions p w then data_at p start else data_at p files))
              same (go others))

  -- What is left where a write failed, and what was written was put back as far as it could be.
  -- `written` are the changes that had been made, with what their paths held, `ahead` the disk on
  -- which the next one failed, `now` the disk behind that, and `failed` the restores that failed.
  pub record GaveUp (start : Dict Node) (changes : List Change) (path : Text) (failed : List Text)
      (d : Disk S) : Type ℓ where
    pub written : List (Change × Option Text)
    pub failing : Change
    pub rest : List Change
    pub ahead : Disk S
    pub now : Disk S
    pub refused_with : OsError
    pub attempt : apply_change before failing ahead ≡ (some refused_with, now)
    pub in_order : changes ≡ changes_of written ++ failing ∷ rest
    pub names_failing : path ≡ failing.path
    pub saved_before : All (Saved start) written
    pub made_before :
        (p : Text) → data_at p now.files ≡ final p (changes_of written) (data_at p start)
    pub put_back : PutBack written failed now d
    pub others_kept : (p : Text) → is_named p failed ≡ false → data_at p d.files ≡ data_at p start
