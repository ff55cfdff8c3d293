-- ===== src/Disk/Success.antt =====
-- On a disk where no operation fails, writes are done.
use arno.Base.{
  ◌≡◌, refl, List, [], ◌∷◌, ◌++◌, Option, none, some, Text, lookup, Bool-cases, inl, inr,
}
use arno.Disk.Atomic.{data_at}
use arno.Disk.AllOrNothing.{final}
use arno.Disk.Batch.{AllOrNone, all, none_of_them, unread, broken}
use arno.Disk.Files.{write_files-AllOrNone}
use arno.Disk.{
  FilesError, restored, nothing_written, not_restored, Node, Disk, Read, Change, OsError, tail_of,
  read_file, read_node, removed, os_remove, or_fail, notify, remove_file, through_temp, write_file,
  unless_missing, apply_change, after_write, write_all, saved_as, beside, save_then_write,
  write_files,
}

module _ {ℓ} {S : Type ℓ} (before : Text → Read → S → S) where
  -- An operation that has not failed, on a disk where no operation fails.
  abbrev Done : Option OsError × Disk S → Type 0
  Done r = (r.0 ≡ none) × (r.1.faults ≡ [])

  write_file-Done :
      (path bytes : Text) (d : Disk S) → d.faults ≡ [] → Done (write_file before path bytes d)
  unfolding write_file through_temp or_fail notify read_file
  write_file-Done path bytes d h = rw h (refl, refl)

  remove_file-Done :
      (path : Text) (d : Disk S)
      → d.faults ≡ []
      → (unless_missing (remove_file before path d).0 ≡ none)
        × ((remove_file before path d).1.faults ≡ [])
  unfolding remove_file os_remove notify read_file
  remove_file-Done path d h = rw h (by_node (lookup path d.files))
    where
      by_node :
          (n : Option Node)
          → let d' = record d {
            faults = [];
            read_faults = tail_of d.read_faults;
            observer = (notify before path d).observer;
          } in
            (unless_missing (removed path d' n).0 ≡ none) × ((removed path d' n).1.faults ≡ [])
      by_node none = (refl, refl)
      by_node (some n) = (refl, refl)

  apply_change-Done : (c : Change) (d : Disk S) → d.faults ≡ [] → Done (apply_change before c d)
  unfolding apply_change
  apply_change-Done c d h = elim (Bool-cases c.removes) [
    | inl e ↦ rw e (remove_file-Done c.path d h)
    | inr e ↦ rw e (write_file-Done c.path c.data_of d h)
  ]

  write_all-succeeds :
      (w rest : List (Change × Option Text)) (d : Disk S)
      → d.faults ≡ []
      → (write_all before w rest d).0 ≡ none
  unfolding write_all
  write_all-succeeds w [] d h = refl
  write_all-succeeds w ((c, old) ∷ rest) d h =
      by_result (apply_change before c d) (apply_change-Done c d h)
        (λ d' h'. write_all-succeeds (w ++ (c, old) ∷ []) rest d' h')
    where
      by_result :
          (r : Option OsError × Disk S)
          → Done r
          → ((d' : Disk S)
              → d'.faults ≡ []
              → (write_all before (w ++ (c, old) ∷ []) rest d').0 ≡ none)
          → (after_write before c.path w (write_all before (w ++ (c, old) ∷ []) rest) r).0 ≡ none
      by_result (none, d') (e, h') go = go d' h'
      by_result (some x, d') (e, h') go = absurd (failed e)
        where
          failed : some x ≡ none → ⊥
          failed e = cc

  save_then_write-succeeds :
      (cs : List Change) (saved : List (Change × Option Text)) (d : Disk S)
      → d.faults ≡ []
      → d.read_faults ≡ []
      → (save_then_write before cs saved d).0 ≡ none
  unfolding save_then_write read_file
  save_then_write-succeeds [] saved d h r = write_all-succeeds [] saved d h
  save_then_write-succeeds (c ∷ cs) saved d h r = rw r (
      by_node (lookup c.path d.files)
        (λ saved'. save_then_write-succeeds cs saved' (record d { read_faults = [] }) h refl))
    where
      by_node :
          (n : Option Node)
          → ((saved' : List (Change × Option Text))
              → (save_then_write before cs saved' (record d { read_faults = [] })).0 ≡ none)
          → (beside before c
              (saved_as (read_node n))
              (λ s. save_then_write before cs s (record d { read_faults = [] }))
              (record d { read_faults = [] })
              saved).0
            ≡ none
      by_node none go = go (saved ++ (c, none) ∷ [])
      by_node (some n) go = go (saved ++ (c, some n.data_of) ∷ [])

  write_files-no_error :
      (changes : List Change) (d : Disk S)
      → d.faults ≡ []
      → d.read_faults ≡ []
      → (write_files before changes d).0 ≡ none
  unfolding write_files
  write_files-no_error changes d h r = save_then_write-succeeds changes [] d h r

  -- Where no operation fails, a change to several files is answered without an error, and every
  -- path holds what the changes, made one after the other, leave there: the data of the last change
  -- that writes it, nothing where that one removes it, and what it held where none names it.
  pub write_files-succeeds :
      (changes : List Change) (d : Disk S)
      → d.faults ≡ []
      → d.read_faults ≡ []
      → ((write_files before changes d).0 ≡ none)
        × ((p : Text)
            → data_at p (write_files before changes d).1.files
              ≡ final p changes (data_at p d.files))
  write_files-succeeds changes d h r =
      let fine = write_files-no_error changes d h r in
      (fine, settled _ (write_files-AllOrNone before changes d) fine)
    where
      settled :
          (e : Option FilesError × Disk S)
          → AllOrNone before d.files changes e
          → e.0 ≡ none
          → (p : Text) → data_at p e.1.files ≡ final p changes (data_at p d.files)
      settled _ (all d' at_all) fine = at_all
      settled _ (none_of_them path written d' left e same) fine = absurd (failing fine)
        where
          failing : some (restored path written) ≡ none → ⊥
          failing e = cc
      settled _ (unread path d' same) fine = absurd (failing fine)
        where
          failing : some (nothing_written path) ≡ none → ⊥
          failing e = cc
      settled _ (broken path first failed d' b) fine = absurd (failing fine)
        where
          failing : some (not_restored path (first ∷ failed)) ≡ none → ⊥
          failing e = cc
