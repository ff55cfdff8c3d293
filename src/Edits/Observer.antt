-- ===== src/Edits/Observer.antt =====
-- What an observer keeps through every write is the same behind an edit.
use arno.Base.{
  ℕ, ◌≡◌, refl, ◌∙◌, Bool, true, false, List, Option, none, some, Text, if◌then◌else◌, Bool-cases,
  inl, inr,
}
use arno.Disk.{
  Disk, Read, contents, missing, unreadable, OsError, read_file, write_file, fails, tick,
}
use arno.Disk.Observer.{write_file-same, remove_file-same}
use arno.Edits.{Edited, edited, not_edited}
use arno.Edits.Index.{
  Answer, ok, err, IndexError, reading, with_read, wrote, write_edited, terminated, insert_source,
  replace_text_source, replace_range_source, replace_file_source, delete_file,
}
use arno.Edits.Symbols.{
  Symbol, symbol_id_path, resolve_symbol_in_file, replace_resolved, replace_in, delete_located,
  create_unless_there, create_file, locate_symbol_position, replace_symbol_source,
  delete_symbol_source,
}

module _ {ℓ} {S : Type ℓ} {X : Type 0} (before : Text → Read → S → S) (f : S → X)
    (keeps : (path : Text) (r : Read) (o : S) → f (before path r o) ≡ f o)
    (resolves : Text → Bool) where
  -- What an operation answers comes with the observer as it was, for all that `f` tells.
  abbrev pub Same : {A : Type 0} → S → A × Disk S → Type 0
  Same o r = f r.1.observer ≡ f o

  wrote-Same :
      {A : Type 0} (value : A) (o : S) (r : Option OsError × Disk S)
      → f r.1.observer ≡ f o
      → Same o (wrote before resolves value r)
  wrote-Same value o (none, d) e = e
  wrote-Same value o (some x, d) e = e

  write-Same :
      {A : Type 0} (value : A) (path bytes : Text) (o : S) (d : Disk S)
      → f d.observer ≡ f o
      → Same o (wrote before resolves value (write_file before path bytes d))
  write-Same value path bytes o d e =
      wrote-Same value o _ (write_file-same before f keeps path bytes d ∙ e)

  edited-Same :
      (path : Text) (lines : ℕ) (r : Edited) (o : S) (d : Disk S)
      → f d.observer ≡ f o
      → Same o (write_edited before resolves path lines r d)
  edited-Same path lines (edited updated) o d e = write-Same lines path updated o d e
  edited-Same path lines (not_edited x) o d e = e

  reading-Same :
      {A : Type 0} (path : Text) (next : Text → Disk S → Answer A × Disk S) (o : S) (d : Disk S)
      → f d.observer ≡ f o
      → ((source : Text) (d' : Disk S) → f d'.observer ≡ f o → Same o (next source d'))
      → Same o (reading before resolves path next d)
  reading-Same path next o d e go = elim (Bool-cases (resolves path)) [
    | inr q ↦ rw q e
    | inl q ↦ rw q (by_read (read_file path d).0 (read_file path d).1 (unfold read_file in e))
  ]
    where
      by_read :
          (r : Read) (d' : Disk S)
          → f d'.observer ≡ f o
          → Same o (with_read before resolves path next (r, d'))
      by_read (contents bytes) d' e' = go bytes d' e'
      by_read missing d' e' = e'
      by_read unreadable d' e' = e'

  guarded :
      {A : Type 0} (b : Bool) (e : IndexError) (d : Disk S) (r : Answer A × Disk S) (o : S)
      → f d.observer ≡ f o
      → Same o r
      → Same o (if b then (err e, d) else r)
  guarded true e d r o h h' = h
  guarded false e d r o h h' = h'

  pub insert_source-Same :
      (path anchor position text : Text) (d : Disk S)
      → Same d.observer (insert_source before resolves path anchor position text d)
  unfolding insert_source
  insert_source-Same path anchor position text d =
      guarded _ _ d _ d.observer refl (
        reading-Same path _ d.observer d refl (λ source d' e. edited-Same path _ _ d.observer d' e))

  pub replace_text_source-Same :
      (path old_text new_text : Text) (d : Disk S)
      → Same d.observer (replace_text_source before resolves path old_text new_text d)
  unfolding replace_text_source
  replace_text_source-Same path old_text new_text d =
      guarded _ _ d _ d.observer refl (
        reading-Same path _ d.observer d refl (λ source d' e. edited-Same path _ _ d.observer d' e))

  pub replace_range_source-Same :
      (path : Text) (start end : ℕ) (new_code : Text) (d : Disk S)
      → Same d.observer (replace_range_source before resolves path start end new_code d)
  unfolding replace_range_source
  replace_range_source-Same path start end new_code d =
      reading-Same path _ d.observer d refl
        (λ source d' e. guarded _ _ d' _ d.observer e (write-Same _ path _ d.observer d' e))

  pub replace_file_source-Same :
      (path content : Text) (d : Disk S)
      → Same d.observer (replace_file_source before resolves path content d)
  unfolding replace_file_source
  replace_file_source-Same path content d =
      reading-Same path _ d.observer d refl (λ source d' e. write-Same _ path _ d.observer d' e)

  pub delete_file-Same :
      (path : Text) (d : Disk S) → Same d.observer (delete_file before resolves path d)
  unfolding delete_file
  delete_file-Same path d =
      reading-Same path _ d.observer d refl
        (λ source d' e. wrote-Same _ d.observer _ (remove_file-same before f keeps path d' ∙ e))

  pub create_file-Same :
      (path content : Text) (d : Disk S)
      → Same d.observer (create_file before resolves path content d)
  unfolding create_file
  create_file-Same path content d = elim (Bool-cases (resolves path)) [
    | inr q ↦ rw q refl
    | inl q ↦ rw q (by_read (read_file path d).0 (read_file path d).1 (unfold read_file in refl))
  ]
    where
      by_read :
          (r : Read) (d' : Disk S)
          → f d'.observer ≡ f d.observer
          → Same d.observer (create_unless_there before resolves path content (r, d'))
      by_read (contents bytes) d' e = e
      by_read unreadable d' e = e
      by_read missing d' e =
          guarded (fails d') _ (tick d') _ d.observer e
            (write-Same 0 path (terminated content) d.observer (tick d') e)

  module _ (symbols_of : Text → Text → List Symbol) where
    pub replace_symbol_source-Same :
        (symbol_id new_code : Text) (d : Disk S)
        → Same d.observer (replace_symbol_source before resolves symbols_of symbol_id new_code d)
    unfolding replace_symbol_source
    replace_symbol_source-Same symbol_id new_code d = by_path (symbol_id_path symbol_id)
      where
        by_symbol :
            (path source : Text) (r : Answer Symbol) (d' : Disk S)
            → f d'.observer ≡ f d.observer
            → Same d.observer
                (replace_resolved before resolves symbols_of path new_code source r d')
        by_symbol path source (err x) d' e = e
        by_symbol path source (ok s) d' e =
            guarded _ _ d' _ d.observer e (write-Same _ path _ d.observer d' e)

        by_path :
            (p : Option Text)
            → Same d.observer (replace_in before resolves symbols_of symbol_id new_code p d)
        by_path none = refl
        by_path (some path) = reading-Same path _ d.observer d refl (λ source d' e.
            by_symbol path source (resolve_symbol_in_file (symbols_of path source) symbol_id) d' e)

    pub delete_symbol_source-Same :
        (path symbol_id : Text) (d : Disk S)
        → Same d.observer (delete_symbol_source before resolves symbols_of path symbol_id d)
    unfolding delete_symbol_source
    delete_symbol_source-Same path symbol_id d =
        by_place (locate_symbol_position before resolves symbols_of path symbol_id d) (
          unfold locate_symbol_position in reading-Same path _ d.observer d refl (λ source d' e. e))
      where
        by_place :
            (r : Answer Symbol × Disk S)
            → Same d.observer r
            → Same d.observer (delete_located before resolves symbols_of path symbol_id r)
        by_place (err x, d1) e = e
        by_place (ok s, d1) e =
            reading-Same path _ d.observer d1 e (λ source d' e'.
              guarded _ _ d' _ d.observer e' (write-Same _ path _ d.observer d' e'))
