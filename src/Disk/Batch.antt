-- ===== src/Disk/Batch.antt =====
-- `Files`: the loop over the changes, and the loop that puts back what was written.
use arno.Base.{
  ℕ, ◌≡◌, refl, sym, ap, ◌∙◌, Bool, true, false, List, [], ◌∷◌, ◌++◌, append-nil, append_assoc,
  Option, none, some, Text, text_eq, if◌then◌else◌, Dict, All, All-append, length,
}
use arno.Disk.{
  Node, OsError, Read, Disk, Change, apply_change, restore_all, gave_up, after_write, write_all,
  FilesError, nothing_written, restored, not_restored,
}
use arno.Disk.Atomic.{data_at, asked}
use arno.Disk.Restores.{Saved, is_named, GaveUp, restore_all-start, restore_all-PutBack}
use arno.Disk.AllOrNothing.{
  final, changes_of, mentions, final_unmentioned, final-append, Put, did, did_not, apply_change-Put,
}

pub changes-append :
    (w v : List (Change × Option Text)) → changes_of (w ++ v) ≡ changes_of w ++ changes_of v
changes-append [] v = refl
changes-append ((c, old) ∷ w) v = ap (◌∷◌ c) (changes-append w v)

module _ {ℓ} {S : Type ℓ} (before : Text → Read → S → S) where
  -- How a change to several files ends. `all`: every path holds what the changes ask, made one
  -- after the other. `none_of_them`: a write failed, every restore of what was written before it was
  -- done, and every path holds the data that it held. `unread`: no file was touched. `broken`: a
  -- write failed, and the error names the files whose restore failed too; every other path holds the
  -- data that it held.
  pub data AllOrNone (start : Dict Node) (changes : List Change)
      : Option FilesError × Disk S → Type ℓ where
    all :
        (d : Disk S)
        → ((p : Text) → data_at p d.files ≡ final p changes (data_at p start))
        → AllOrNone start changes (none, d)
    none_of_them :
        (path : Text) (written : ℕ) (d : Disk S)
        → (left : GaveUp before start changes path [] d) → written ≡ length left.written
        → ((p : Text) → data_at p d.files ≡ data_at p start)
        → AllOrNone start changes (some (restored path written), d)
    unread :
        (path : Text) (d : Disk S)
        → d.files ≡ start
        → AllOrNone start changes (some (nothing_written path), d)
    broken :
        (path first : Text) (failed : List Text) (d : Disk S)
        → GaveUp before start changes path (first ∷ failed) d
        → AllOrNone start changes (some (not_restored path (first ∷ failed)), d)

  gave_up-AllOrNone :
      (start : Dict Node) (changes : List Change) (path : Text) (i : ℕ) (r : List Text × Disk S)
      → (left : GaveUp before start changes path r.0 r.1) → i ≡ length left.written
      → AllOrNone start changes (gave_up before path i r)
  gave_up-AllOrNone start changes path i ([], d) left e =
      none_of_them path i d left e (λ p. left.others_kept p refl)
  gave_up-AllOrNone start changes path i (f ∷ failed, d) left e = broken path f failed d left

  pub write_all-AllOrNone :
      (start : Dict Node) (w rest : List (Change × Option Text)) (d : Disk S)
      → All (Saved start) w
      → All (Saved start) rest
      → ((p : Text) → data_at p d.files ≡ final p (changes_of w) (data_at p start))
      → AllOrNone start (changes_of (w ++ rest)) (write_all before w rest d)
  unfolding write_all
  write_all-AllOrNone start w [] d hw hr at = rw (append-nil w) (all d at)
  write_all-AllOrNone start w ((c, old) ∷ rest) d hw (hc, hr) at =
      by_put (apply_change before c d) (apply_change-Put before c d) refl (λ d' at'.
        rw (append_assoc w ((c, old) ∷ []) rest) at (
          write_all-AllOrNone start (w ++ (c, old) ∷ []) rest d'
            (All-append (Saved start) w ((c, old) ∷ []) hw (hc, tt)) hr at'))
    where
      put_back :
          (d' : Disk S)
          → d'.files ≡ d.files
          → (p : Text) → is_named p (restore_all before w d').0 ≡ false
          → data_at p (restore_all before w d').1.files ≡ data_at p start
      put_back d' same p free =
          by_mention (mentions p w) refl (restore_all-start before start w d' p hw free)
        where
          by_mention :
              (b : Bool)
              → mentions p w ≡ b
              → data_at p (restore_all before w d').1.files
                ≡ (if b then data_at p start else data_at p d'.files)
              → data_at p (restore_all before w d').1.files ≡ data_at p start
          by_mention true m h = h
          by_mention false m h =
              h ∙ ap (data_at p) same ∙ at p ∙ final_unmentioned p (data_at p start) w m

      left_broken :
          (x : OsError) (d' : Disk S)
          → apply_change before c d ≡ (some x, d')
          → d'.files ≡ d.files
          → GaveUp before start
              (changes_of (w ++ (c, old) ∷ rest))
              c.path
              (restore_all before w d').0
              (restore_all before w d').1
      left_broken x d' q same = record {
        written = w;
        failing = c;
        rest = changes_of rest;
        ahead = d;
        now = d';
        refused_with = x;
        attempt = q;
        in_order = changes-append w ((c, old) ∷ rest);
        names_failing = refl;
        saved_before = hw;
        made_before = λ p. ap (data_at p) same ∙ at p;
        put_back = restore_all-PutBack before w d';
        others_kept = put_back d' same;
      }

      by_put :
          (r : Option OsError × Disk S)
          → Put c.path (asked c) d.files r
          → apply_change before c d ≡ r
          → ((d' : Disk S)
              → ((p : Text)
                  → data_at p d'.files
                    ≡ final p (changes_of (w ++ (c, old) ∷ [])) (data_at p start))
              → AllOrNone start
                  (changes_of (w ++ (c, old) ∷ rest))
                  (write_all before (w ++ (c, old) ∷ []) rest d'))
          → AllOrNone start
              (changes_of (w ++ (c, old) ∷ rest))
              (after_write before c.path w (write_all before (w ++ (c, old) ∷ []) rest) r)
      by_put _ (did d' at_path) q go = go d' (λ p.
          at_path p
          ∙ ap (λ x. if text_eq c.path p then asked c else x) (at p)
          ∙ sym (final-append p (data_at p start) w c old))
      by_put _ (did_not e d' same) q go =
          gave_up-AllOrNone start _ c.path (length w) _ (left_broken e d' q same) refl
