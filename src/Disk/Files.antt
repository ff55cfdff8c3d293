-- ===== src/Disk/Files.antt =====
-- `Files` as a whole, from the reads on.
use arno.Base.{
  ◌≡◌, refl, sym, ap, ◌∙◌, List, [], ◌∷◌, ◌++◌, append-nil, append_assoc, Option, none, some, Text,
  Dict, lookup, Bool-cases, inl, inr, All, All-append,
}
use mathlib.Core.Path.{subst}
use arno.Disk.{
  Node, Read, Disk, Change, head_or_false, tail_of, read_file, read_node, saved_as, beside,
  save_then_write, write_all, write_files,
}
use arno.Disk.Atomic.{data_in, data_at}
use arno.Disk.AllOrNothing.{changes_of}
use arno.Disk.Restores.{Saved}
use arno.Disk.Batch.{AllOrNone, changes-append, unread, write_all-AllOrNone}

module _ {ℓ} {S : Type ℓ} (before : Text → Read → S → S) where
  save_then_write-AllOrNone :
      (cs : List Change) (saved : List (Change × Option Text)) (start : Dict Node) (d : Disk S)
      → d.files ≡ start
      → All (Saved start) saved
      → AllOrNone before start (changes_of saved ++ cs) (save_then_write before cs saved d)
  unfolding save_then_write read_file
  save_then_write-AllOrNone [] saved start d same h =
      subst (λ l. AllOrNone before start l (write_all before [] saved d))
        (sym (append-nil (changes_of saved)))
        (write_all-AllOrNone before start [] saved d tt h (λ p. ap (data_at p) same))
  save_then_write-AllOrNone (c ∷ cs) saved start d same h =
      elim (Bool-cases (head_or_false d.read_faults)) [
        | inl e ↦ rw e (unread c.path (record d { read_faults = tail_of d.read_faults }) same)
        | inr e ↦ rw e (
            by_node (lookup c.path d.files) refl (λ old s.
              rw (changes-append saved ((c, old) ∷ []), append_assoc) at
                (save_then_write-AllOrNone cs (saved ++ (c, old) ∷ []) start
                  (record d { read_faults = tail_of d.read_faults }) same
                  (All-append (Saved start) saved ((c, old) ∷ []) h (s, tt)))))
      ]
    where
      by_node :
          (n : Option Node)
          → lookup c.path d.files ≡ n
          → ((old : Option Text)
              → old ≡ data_at c.path start
              → AllOrNone before start (changes_of saved ++ c ∷ cs) (
                  save_then_write before cs
                    (saved ++ (c, old) ∷ [])
                    (record d { read_faults = tail_of d.read_faults })))
          → AllOrNone before start (changes_of saved ++ c ∷ cs) (
              beside before c
                (saved_as (read_node n))
                (λ saved.
                  save_then_write before cs saved
                    (record d { read_faults = tail_of d.read_faults }))
                (record d { read_faults = tail_of d.read_faults })
                saved)
      by_node none e go = go none (sym (ap data_in e) ∙ ap (data_at c.path) same)
      by_node (some n) e go = go (some n.data_of) (sym (ap data_in e) ∙ ap (data_at c.path) same)

  -- A change to several files ends in one of four ways, whichever operations of the disk fail:
  -- every change is made; or no file's data has changed; or a file could not be read and nothing
  -- was touched; or a write failed and, of the changes made before it, the restores of the files
  -- that the error names and no other failed too, and every path that it does not name holds its
  -- data.
  pub write_files-AllOrNone :
      (changes : List Change) (d : Disk S)
      → AllOrNone before d.files changes (write_files before changes d)
  unfolding write_files
  write_files-AllOrNone changes d = save_then_write-AllOrNone changes [] d.files d refl tt
