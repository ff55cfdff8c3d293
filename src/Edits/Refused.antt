-- ===== src/Edits/Refused.antt =====
-- An edit changes its own file only, and one that answers an error has changed none.
use arno.Base.{
  ℕ, ◌≡◌, refl, ap, ◌∙◌, Bool, true, false, List, Option, Text, text_eq, length, if◌then◌else◌,
  is_empty, Dict, Bool-cases, inl, inr,
}
use arno.Disk.{Node, Disk, Read, contents, missing, unreadable, OsError, read_file, write_file}
use arno.Disk.AllOrNothing.{at_insert, at_remove}
use arno.Disk.Atomic.{data_at, Ended, succeeded, refused, write_file-Ended, remove_file-Ended}
use arno.Edits.{Edited, edited, not_edited, split_lines}
use arno.Edits.Index.{
  Answer, ok, err, IndexError, reading, with_read, wrote, write_edited, insert_source,
  replace_text_source, replace_range_source, replace_file_source, delete_file,
}

module _ {ℓ} {S : Type ℓ} where
  -- An answer comes with every other path's data as it was, and an answer that is an error with all
  -- the files as they were.
  pub data Safe {A : Type 0} (path : Text) (start : Dict Node) : Answer A × Disk S → Type ℓ where
    changed :
        (value : A) (d : Disk S)
        → ((p : Text) → text_eq path p ≡ false → data_at p d.files ≡ data_at p start)
        → Safe path start (ok value, d)
    same : (e : IndexError) (d : Disk S) → d.files ≡ start → Safe path start (err e, d)

  module _ (before : Text → Read → S → S) (resolves : Text → Bool) where
    pub wrote-Safe :
        {A : Type 0} (value : A) (path : Text) (start now goal : Dict Node) (reads : List Bool)
        (o : S) (r : Option OsError × Disk S)
        → now ≡ start
        → ((p : Text) → text_eq path p ≡ false → data_at p goal ≡ data_at p now)
        → Ended now goal reads o r
        → Safe path start (wrote before resolves value r)
    wrote-Safe value path start now goal reads o _ e others (succeeded d h) =
        changed value d (λ p ne. ap (data_at p) h.files_eq ∙ others p ne ∙ ap (data_at p) e)
    wrote-Safe value path start now goal reads o _ e others (refused e' d h) =
        same _ d (h.files_eq ∙ e)

    -- What follows a read is safe, so the whole is.
    pub reading-Safe :
        {A : Type 0} (path : Text) (next : Text → Disk S → Answer A × Disk S) (d : Disk S)
        → ((source : Text) (d' : Disk S) → d'.files ≡ d.files → Safe path d.files (next source d'))
        → Safe path d.files (reading before resolves path next d)
    reading-Safe path next d safe = elim (Bool-cases (resolves path)) [
      | inr e ↦ rw e (same _ d refl)
      | inl e ↦ rw e (by_read (read_file path d).0 (read_file path d).1 (unfold read_file in refl))
    ]
      where
        by_read :
            (r : Read) (d' : Disk S)
            → d'.files ≡ d.files
            → Safe path d.files (with_read before resolves path next (r, d'))
        by_read (contents bytes) d' e = safe bytes d' e
        by_read missing d' e = same _ d' e
        by_read unreadable d' e = same _ d' e

    pub write-Safe :
        {A : Type 0} (value : A) (path bytes : Text) (start : Dict Node) (d : Disk S)
        → d.files ≡ start
        → Safe path start (wrote before resolves value (write_file before path bytes d))
    write-Safe value path bytes start d e =
        wrote-Safe value path start d.files _ _ _ _ e
          (λ p ne. at_insert path p bytes d.files ∙ rw ne refl)
          (write_file-Ended before path bytes d)

    pub edited-Safe :
        (path : Text) (lines : ℕ) (r : Edited) (start : Dict Node) (d : Disk S)
        → d.files ≡ start
        → Safe path start (write_edited before resolves path lines r d)
    edited-Safe path lines (edited updated) start d e = write-Safe lines path updated start d e
    edited-Safe path lines (not_edited r) start d e = same _ d e

    -- An insertion, a replacement of text, of lines or of a file, and a deletion change no file but
    -- their own, and where they answer an error no file at all: for a refused path, a failed read,
    -- an anchor that does not occur once, a range out of bounds or a failed write.
    pub edits-Safe :
        (path anchor position text : Text) (start end : ℕ) (d : Disk S)
        → Safe path d.files (insert_source before resolves path anchor position text d)
          × Safe path d.files (replace_text_source before resolves path anchor text d)
          × Safe path d.files (replace_range_source before resolves path start end text d)
          × Safe path d.files (replace_file_source before resolves path text d)
          × Safe path d.files (delete_file before resolves path d)
    unfolding insert_source replace_text_source replace_range_source replace_file_source delete_file
    edits-Safe path anchor position text start end d = (
      guarded (is_empty text) _
          (reading-Safe path _ d (λ source d' e. edited-Safe path _ _ d.files d' e)),
      guarded (is_empty anchor) _
          (reading-Safe path _ d (λ source d' e. edited-Safe path _ _ d.files d' e)),
      reading-Safe path _ d (λ source d' e. in_range _ d' e _ (write-Safe _ path _ d.files d' e)),
      reading-Safe path _ d (λ source d' e. write-Safe _ path _ d.files d' e),
      reading-Safe path _ d (λ source d' e.
          wrote-Safe (length (split_lines source)) path d.files d'.files _ _ _ _ e
            (λ p ne. at_remove path p d'.files ∙ rw ne refl) (remove_file-Ended before path d')),
    )
      where
        guarded :
            {A : Type 0} {r : Answer A × Disk S} (b : Bool) (e : IndexError)
            → Safe path d.files r
            → Safe path d.files (if b then (err e, d) else r)
        guarded true e h = same e d refl
        guarded false e h = h

        in_range :
            {A : Type 0} {r : Answer A × Disk S} (b : Bool) (d' : Disk S)
            → d'.files ≡ d.files
            → (e : IndexError) → Safe path d.files r
            → Safe path d.files (if b then (err e, d') else r)
        in_range true d' same_files e h = same e d' same_files
        in_range false d' same_files e h = h
