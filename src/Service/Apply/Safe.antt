-- ===== src/Service/Apply/Safe.antt =====
-- One edit of a batch changes the file that it names, or nothing.
use mathlib.Core.Path.{subst}
use arno.Base.{
  ℕ, ◌≡◌, refl, Bool, true, false, List, [], ◌∷◌, some, Text, codes, text_eq, length, is_empty,
  if◌then◌else◌, Dict, All, Bool-cases, inl, inr,
}
use arno.Base.Paths.{clean}
use arno.Disk.{Node, Disk, Read, contents, missing, unreadable, read_file}
use arno.Edits.Index.{Answer, ok, err, IndexError, with_read}
use arno.Edits.Refused.{Safe, changed, same, edits-Safe}
use arno.Edits.Symbols.{
  Symbol, named, symbol_id_path, symbols_by_name, replace_symbol_source, delete_symbol_source,
}
use arno.Service.{count_lines}
use arno.Edits.Symbols.Refused.{
  replace_symbol_source-Safe, delete_symbol_source-Safe, symbols_by_name-files,
}
use arno.Service.Apply.{EditOp, is_op, delta_answer, only_id, id_of_named, with_id}
use arno.Service.Apply.Run.{resolve_symbol, apply_one}
use arno.Workspace.{Manager}
use arno.Workspace.Checkpoints.{before_write}

-- A parser gives every symbol of a file an id with the file's path in front.
abbrev pub IsParser : (Text → Text → List Symbol) → Type 0
IsParser symbols_of =
    (path source : Text) → All (λ s. symbol_id_path s.id ≡ some path) (symbols_of path source)

-- A replacement of a symbol names the file that it edits: its path is written as the parser writes
-- it, and an id that it gives is an id of that file.
abbrev pub IsHome : EditOp → Type 0
IsHome o =
    is_op o (codes "replace_symbol") ≡ true
    → (clean o.path ≡ o.path)
      × (is_empty o.symbol_id ≡ false → symbol_id_path o.symbol_id ≡ some o.path)

delta_answer-Safe :
    {A : Type 0} (path : Text) (start : Dict Node) (f : A → ℕ × ℕ) (r : Answer A × Disk Manager)
    → Safe path start r
    → Safe path start (delta_answer f r)
delta_answer-Safe path start f _ (changed value d h) = changed (f value) d h
delta_answer-Safe path start f _ (same e d h) = same e d h

-- What is read with its files unchanged, and an id of the path where it is no error.
data Home (path : Text) (start : Dict Node) : Answer Text × Disk Manager → Type 0 where
  home :
      (id : Text) (d : Disk Manager)
      → symbol_id_path id ≡ some path
      → d.files ≡ start
      → Home path start (ok id, d)
  away : (e : IndexError) (d : Disk Manager) → d.files ≡ start → Home path start (err e, d)

named-All :
    (P : Symbol → Type 0) (name : Text) (symbols : List Symbol)
    → All P symbols
    → All P (named name symbols)
unfolding named
named-All P name [] h = tt
named-All P name (s ∷ symbols) (hs, h) =
    by_test (text_eq s.name name) (named name symbols) (named-All P name symbols h)
  where
    by_test : (b : Bool) (l : List Symbol) → All P l → All P (if b then s ∷ l else l)
    by_test true l hl = (hs, hl)
    by_test false l hl = hl

module _ (resolves : Text → Bool) (symbols_of : Text → Text → List Symbol) where
  symbols_by_name-Home :
      (path name : Text) (d : Disk Manager)
      → IsParser symbols_of
      → clean path ≡ path
      → Home path d.files
          (id_of_named name (symbols_by_name before_write resolves symbols_of path name d))
  unfolding symbols_by_name
  symbols_by_name-Home path name d parser own = elim (Bool-cases (resolves path)) [
    | inr e ↦ rw e (away _ d refl)
    | inl e ↦ rw e (by_read (read_file path d).0 (read_file path d).1 (unfold read_file in refl))
  ]
    where
      by_matches :
          (d' : Disk Manager)
          → d'.files ≡ d.files
          → (l : List Symbol) → All (λ s. symbol_id_path s.id ≡ some path) l
          → Home path d.files (only_id name l, d')
      by_matches d' e [] h = away _ d' e
      by_matches d' e (s ∷ []) (h, rest) = home s.id d' h e
      by_matches d' e (s ∷ t ∷ l) h = away _ d' e

      by_read :
          (r : Read) (d' : Disk Manager)
          → d'.files ≡ d.files
          → Home path d.files (
              id_of_named name (
                with_read before_write resolves path
                  (λ source d2. (ok (named name (symbols_of (clean path) source)), d2))
                  (r, d')))
      by_read (contents source) d' e =
          rw own (by_matches d' e _ (named-All _ name _ (parser path source)))
      by_read missing d' e = away _ d' e
      by_read unreadable d' e = away _ d' e

  resolve_symbol-files :
      (o : EditOp) (d : Disk Manager) → (resolve_symbol resolves symbols_of o d).1.files ≡ d.files
  unfolding resolve_symbol
  resolve_symbol-files o d = elim (Bool-cases (is_empty o.symbol_id)) [
    | inl e ↦ rw e (
        by_answer _ (symbols_by_name-files before_write resolves symbols_of o.path o.symbol_name d))
    | inr e ↦ rw e refl
  ]
    where
      by_answer :
          (r : Answer (List Symbol) × Disk Manager)
          → r.1.files ≡ d.files
          → (id_of_named o.symbol_name r).1.files ≡ d.files
      by_answer (ok l, d') e = e
      by_answer (err x, d') e = e

  resolve_symbol-Home :
      (o : EditOp) (d : Disk Manager)
      → IsParser symbols_of
      → clean o.path ≡ o.path
      → (is_empty o.symbol_id ≡ false → symbol_id_path o.symbol_id ≡ some o.path)
      → Home o.path d.files (resolve_symbol resolves symbols_of o d)
  unfolding resolve_symbol
  resolve_symbol-Home o d parser own given = elim (Bool-cases (is_empty o.symbol_id)) [
    | inl e ↦ rw e (symbols_by_name-Home o.path o.symbol_name d parser own)
    | inr e ↦ rw e (home o.symbol_id d (given e) refl)
  ]

  -- An edit of a batch changes no file but the one that it names, and where it answers an error no
  -- file at all.
  pub apply_one-Safe :
      (o : EditOp) (d : Disk Manager)
      → IsParser symbols_of
      → IsHome o
      → Safe o.path d.files (apply_one resolves symbols_of o d)
  unfolding apply_one
  apply_one-Safe o d parser own =
      by_op (is_op o (codes "replace_text"))
        (delta_answer-Safe o.path d.files _ _
          (edits-Safe before_write resolves o.path o.old_text [] o.new_text 0 0 d).1)
        (by_op (is_op o (codes "replace_range"))
          (delta_answer-Safe o.path d.files _ _
            (edits-Safe before_write resolves o.path [] [] o.new_text o.start_line o.end_line d).2)
          (by_replacement (is_op o (codes "replace_symbol")) own (
            by_op (is_op o (codes "delete_symbol")) (by_id _ (resolve_symbol-files o d)) (
              by_op (is_op o (codes "insert"))
                (delta_answer-Safe o.path d.files _ _
                  (edits-Safe before_write resolves o.path o.anchor o.position o.new_text 0 0 d).0)
                (same _ d refl)))))
    where
      by_op :
          (b : Bool) {r r' : Answer (ℕ × ℕ) × Disk Manager}
          → Safe o.path d.files r
          → Safe o.path d.files r'
          → Safe o.path d.files (if b then r else r')
      by_op true h h' = h
      by_op false h h' = h'

      by_id :
          (r : Answer Text × Disk Manager)
          → r.1.files ≡ d.files
          → Safe o.path d.files (
              with_id r (λ id d'.
                delta_answer
                  (λ (s, removed). (0, length removed))
                  (delete_symbol_source before_write resolves symbols_of o.path id d')))
      by_id (err e, d') h = same e d' h
      by_id (ok id, d') h = delta_answer-Safe o.path d.files _ _ (
          subst
            (λ files.
              Safe o.path files
                (delete_symbol_source before_write resolves symbols_of o.path id d'))
            h (delete_symbol_source-Safe before_write resolves symbols_of o.path id d'))

      by_home :
          (r : Answer Text × Disk Manager)
          → Home o.path d.files r
          → Safe o.path d.files (
              with_id r (λ id d'.
                delta_answer
                  (λ (s, old_lines). (count_lines o.new_text, length old_lines))
                  (replace_symbol_source before_write resolves symbols_of id o.new_text d')))
      by_home _ (away e d' h) = same e d' h
      by_home _ (home id d' e h) = delta_answer-Safe o.path d.files _ _ (
          subst
            (λ files.
              Safe o.path files
                (replace_symbol_source before_write resolves symbols_of id o.new_text d'))
            h
            (replace_symbol_source-Safe before_write resolves symbols_of o.path id o.new_text d' e))

      by_replacement :
          (b : Bool) {r' : Answer (ℕ × ℕ) × Disk Manager}
          → (b ≡ true
              → (clean o.path ≡ o.path)
                × (is_empty o.symbol_id ≡ false → symbol_id_path o.symbol_id ≡ some o.path))
          → Safe o.path d.files r'
          → Safe o.path d.files (
              if b
              then with_id (resolve_symbol resolves symbols_of o d) (λ id d'.
                delta_answer
                  (λ (s, old_lines). (count_lines o.new_text, length old_lines))
                  (replace_symbol_source before_write resolves symbols_of id o.new_text d'))
              else r')
      by_replacement true own h =
          let (clean_path, given) = own refl in
          by_home _ (resolve_symbol-Home o d parser clean_path given)
      by_replacement false own h = h
