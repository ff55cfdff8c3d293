-- ===== src/Edits/Symbols/Refused.antt =====
-- The edits of a symbol and the creation of a file change their own file only, and one that answers
-- an error has changed none.
use mathlib.Core.Path.{subst}
use arno.Base.{
  ◌≡◌, refl, Bool, true, false, List, some, Text, if◌then◌else◌, Dict, Bool-cases, Option-cases, [],
  inl, inr,
}
use arno.Disk.{Node, Disk, Read, contents, missing, unreadable, read_file, fails, tick}
use arno.Edits.Index.{Answer, ok, err, IndexError, terminated, reading, with_read}
use arno.Edits.Refused.{Safe, same, reading-Safe, write-Safe}
use arno.Edits.Symbols.{
  Symbol, symbol_id_path, resolve_symbol_in_file, create_unless_there, create_file,
  replace_resolved, replace_symbol_source, delete_located, locate_symbol_position,
  delete_symbol_source, symbols_by_name,
}

module _ {ℓ} {S : Type ℓ} (before : Text → Read → S → S) (resolves : Text → Bool) where
  guarded :
      {A : Type 0} (path : Text) (start : Dict Node) (b : Bool) (e : IndexError) (d : Disk S)
      (r : Answer A × Disk S)
      → d.files ≡ start
      → Safe path start r
      → Safe path start (if b then (err e, d) else r)
  guarded path start true e d r h safe = same e d h
  guarded path start false e d r h safe = safe

  pub create_file-Safe :
      (path content : Text) (d : Disk S)
      → Safe path d.files (create_file before resolves path content d)
  unfolding create_file
  create_file-Safe path content d = elim (Bool-cases (resolves path)) [
    | inr e ↦ rw e (same _ d refl)
    | inl e ↦ rw e (by_read (read_file path d).0 (read_file path d).1 (unfold read_file in refl))
  ]
    where
      by_read :
          (r : Read) (d' : Disk S)
          → d'.files ≡ d.files
          → Safe path d.files (create_unless_there before resolves path content (r, d'))
      by_read (contents bytes) d' e = same _ d' e
      by_read unreadable d' e = same _ d' e
      by_read missing d' e =
          guarded path d.files (fails d') _ (tick d') _ e
            (write-Safe before resolves 0 path (terminated content) d.files (tick d') e)

  reading-files :
      {A : Type 0} (path : Text) (f : Text → Answer A) (d : Disk S)
      → (reading before resolves path (λ source d'. (f source, d')) d).1.files ≡ d.files
  reading-files path f d = elim (Bool-cases (resolves path)) [
    | inr e ↦ rw e refl
    | inl e ↦ rw e (by_read (read_file path d).0 (read_file path d).1 (unfold read_file in refl))
  ]
    where
      by_read :
          (r : Read) (d' : Disk S)
          → d'.files ≡ d.files
          → (with_read before resolves path (λ source d2. (f source, d2)) (r, d')).1.files ≡ d.files
      by_read (contents bytes) d' e = e
      by_read missing d' e = e
      by_read unreadable d' e = e

  module _ (symbols_of : Text → Text → List Symbol) where
    pub replace_symbol_source-Safe :
        (path symbol_id new_code : Text) (d : Disk S)
        → symbol_id_path symbol_id ≡ some path
        → Safe path d.files (replace_symbol_source before resolves symbols_of symbol_id new_code d)
    unfolding replace_symbol_source
    replace_symbol_source-Safe path symbol_id new_code d h = rw h (
        reading-Safe before resolves path _ d (λ source d' e.
          by_symbol source (resolve_symbol_in_file (symbols_of path source) symbol_id) d' e))
      where
        by_symbol :
            (source : Text) (r : Answer Symbol) (d' : Disk S)
            → d'.files ≡ d.files
            → Safe path d.files
                (replace_resolved before resolves symbols_of path new_code source r d')
        by_symbol source (err x) d' e = same x d' e
        by_symbol source (ok s) d' e =
            guarded path d.files _ _ d' _ e (write-Safe before resolves _ path _ d.files d' e)

    -- The file of an id, or any file where the id has none.
    pub replace_symbol_source-somewhere :
        (symbol_id new_code : Text) (d : Disk S)
        → (path : Text) × Safe path d.files
            (replace_symbol_source before resolves symbols_of symbol_id new_code d)
    replace_symbol_source-somewhere symbol_id new_code d =
        elim (Option-cases (symbol_id_path symbol_id)) [
          | inl e ↦ ([], unfold replace_symbol_source in rw e (same _ d refl))
          | inr (path, e) ↦ (path, replace_symbol_source-Safe path symbol_id new_code d e)
        ]

    pub symbols_by_name-files :
        (path name : Text) (d : Disk S)
        → (symbols_by_name before resolves symbols_of path name d).1.files ≡ d.files
    unfolding symbols_by_name
    symbols_by_name-files path name d = reading-files path _ d

    pub locate_symbol_position-files :
        (path symbol_id : Text) (d : Disk S)
        → (locate_symbol_position before resolves symbols_of path symbol_id d).1.files ≡ d.files
    unfolding locate_symbol_position
    locate_symbol_position-files path symbol_id d = reading-files path _ d

    pub delete_symbol_source-Safe :
        (path symbol_id : Text) (d : Disk S)
        → Safe path d.files (delete_symbol_source before resolves symbols_of path symbol_id d)
    unfolding delete_symbol_source
    delete_symbol_source-Safe path symbol_id d =
        by_place _ _ (locate_symbol_position-files path symbol_id d)
      where
        by_place :
            (r : Answer Symbol) (d1 : Disk S)
            → d1.files ≡ d.files
            → Safe path d.files (delete_located before resolves symbols_of path symbol_id (r, d1))
        by_place (err x) d1 e = same x d1 e
        by_place (ok s) d1 e =
            subst
              (λ files.
                Safe path files
                  (delete_located before resolves symbols_of path symbol_id (ok s, d1)))
              e
              (reading-Safe before resolves path _ d1 (λ source d' e'.
                guarded path d1.files _ _ d' _ e'
                  (write-Safe before resolves _ path _ d1.files d' e')))
