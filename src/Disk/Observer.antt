-- ===== src/Disk/Observer.antt =====
-- What an observer keeps through every write is the same behind a batch of them.
use arno.Base.{
  ℕ, Dict, ◌≡◌, refl, ap, ◌∙◌, Bool, List, [], ◌∷◌, ◌++◌, Option, none, some, Text, Bool-cases, inl,
  inr,
}
use arno.Disk.{
  Node, Disk, Read, Change, OsError, read_file, notify, remove_file, write_file, apply_change,
  restore, restore_all, gave_up, after_write, write_all, saved_as, beside, save_then_write,
  write_files,
}
use arno.Disk.Atomic.{
  Ended, succeeded, refused, told, os_remove-Ended, write_file-Ended, remove_file-Ended,
}

module _ {ℓ} {S : Type ℓ} {X : Type 0} (before : Text → Read → S → S) (f : S → X)
    (keeps : (path : Text) (r : Read) (o : S) → f (before path r o) ≡ f o) where
  told-same : (path : Text) (d : Disk S) → f (told before path d) ≡ f d.observer
  unfolding notify read_file
  told-same path d = keeps path _ d.observer

  Ended-same :
      {start goal : Dict Node} {reads : List Bool} (o : S) (x : X)
      → f o ≡ x
      → (r : Option OsError × Disk S) → Ended start goal reads o r
      → f r.1.observer ≡ x
  Ended-same o x e _ (succeeded d h) = ap f h.observer_eq ∙ e
  Ended-same o x e _ (refused e' d h) = ap f h.observer_eq ∙ e

  pub write_file-same :
      (path bytes : Text) (d : Disk S)
      → f (write_file before path bytes d).1.observer ≡ f d.observer
  write_file-same path bytes d =
      Ended-same (told before path d) _ (told-same path d) _ (write_file-Ended before path bytes d)

  pub remove_file-same :
      (path : Text) (d : Disk S) → f (remove_file before path d).1.observer ≡ f d.observer
  remove_file-same path d =
      Ended-same (told before path d) _ (told-same path d) _ (remove_file-Ended before path d)

  apply_change-same :
      (c : Change) (d : Disk S) → f (apply_change before c d).1.observer ≡ f d.observer
  unfolding apply_change
  apply_change-same c d = elim (Bool-cases c.removes) [
    | inl e ↦ rw e (remove_file-same c.path d)
    | inr e ↦ rw e (write_file-same c.path c.data_of d)
  ]

  restore-same :
      (path : Text) (old : Option Text) (d : Disk S)
      → f (restore before path old d).1.observer ≡ f d.observer
  unfolding restore
  restore-same path none d = Ended-same d.observer _ refl _ (os_remove-Ended path d)
  restore-same path (some bytes) d = write_file-same path bytes d

  restore_all-same :
      (w : List (Change × Option Text)) (d : Disk S)
      → f (restore_all before w d).1.observer ≡ f d.observer
  unfolding restore_all
  restore_all-same [] d = refl
  restore_all-same ((c, old) ∷ w) d =
      restore_all-same w (restore before c.path old d).1 ∙ restore-same c.path old d

  write_all-same :
      (w rest : List (Change × Option Text)) (d : Disk S)
      → f (write_all before w rest d).1.observer ≡ f d.observer
  unfolding write_all
  write_all-same w [] d = refl
  write_all-same w ((c, old) ∷ rest) d =
      by_result (apply_change before c d) (apply_change-same c d)
        (λ d'. write_all-same (w ++ (c, old) ∷ []) rest d')
    where
      settled :
          (path : Text) (i : ℕ) (r : List Text × Disk S)
          → f (gave_up before path i r).1.observer ≡ f r.1.observer
      settled path i ([], d') = refl
      settled path i (x ∷ xs, d') = refl

      by_result :
          (r : Option OsError × Disk S)
          → f r.1.observer ≡ f d.observer
          → ((d' : Disk S)
              → f (write_all before (w ++ (c, old) ∷ []) rest d').1.observer ≡ f d'.observer)
          → f
              (after_write before c.path w
                (write_all before (w ++ (c, old) ∷ []) rest)
                r).1.observer
            ≡ f d.observer
      by_result (none, d') e go = go d' ∙ e
      by_result (some x, d') e go =
          settled c.path _ (restore_all before w d') ∙ restore_all-same w d' ∙ e

  save_then_write-same :
      (cs : List Change) (saved : List (Change × Option Text)) (d : Disk S)
      → f (save_then_write before cs saved d).1.observer ≡ f d.observer
  unfolding save_then_write read_file
  save_then_write-same [] saved d = write_all-same [] saved d
  save_then_write-same (c ∷ cs) saved d =
      by_old (saved_as (read_file c.path d).0)
        (λ saved'. save_then_write-same cs saved' (read_file c.path d).1)
    where
      by_old :
          (o : Option (Option Text))
          → ((saved' : List (Change × Option Text))
              → f (save_then_write before cs saved' (read_file c.path d).1).1.observer
                ≡ f d.observer)
          → f
              (beside before c o
                (λ s. save_then_write before cs s (read_file c.path d).1)
                (read_file c.path d).1
                saved).1.observer
            ≡ f d.observer
      by_old none go = refl
      by_old (some old) go = go (saved ++ (c, old) ∷ [])

  pub write_files-same :
      (changes : List Change) (d : Disk S)
      → f (write_files before changes d).1.observer ≡ f d.observer
  unfolding write_files
  write_files-same changes d = save_then_write-same changes [] d
