-- ===== src/Service/Revision.antt =====
-- What an edit of the service leaves: one revision more, with its file in the ledger, or nothing.
use arno.Base.{ℕ, ◌+◌, ◌≡◌, refl, ap, ◌∙◌, Bool, List, [], ◌∷◌, ◌++◌, Option, none, some, Text}
use arno.Disk.{Disk}
use arno.Edits.Index.{Answer, ok, IndexError}
use arno.Edits.Refused.{Safe, changed, same, edits-Safe}
use arno.Edits.Observer.{
  insert_source-Same, replace_text_source-Same, replace_range_source-Same, replace_file_source-Same,
  delete_file-Same, create_file-Same, replace_symbol_source-Same, delete_symbol_source-Same,
}
use arno.Edits.Symbols.{Symbol, delete_symbol_source, replace_symbol_source}
use arno.Edits.Symbols.Refused.{
  create_file-Safe, replace_symbol_source-somewhere, delete_symbol_source-Safe,
}
use arno.Events.{Bus, Event}
use arno.Service.{StaleRevision, check_revision}
use arno.Service.Formatted.{
  recorded, before_write-recorded, format_files-recorded, snippets-observer,
}
use arno.Service.Operations.{
  Formatter, EditResponse, Reply, accepted, stale, failed, format_files, record_edit, after_edit,
  unless_stale, checking, replace_range, replace_text, insert_text, create, replace_file,
  remove_path, replace_symbol, delete_symbol,
}
use arno.Workspace.{
  Manager, RevisionEntry, revision_string, bump_revision, bumped, emit, newest, max_ledger_entries,
  sorted, entry_paths,
}
use arno.Workspace.Checkpoints.{before_write}

-- The record behind one bump for a path.
abbrev pub with_entry : Text → ℕ × List RevisionEntry → ℕ × List RevisionEntry
with_entry key (revision, ledger) =
    let entry : RevisionEntry = record {
      revision = revision + 1;
      paths = sorted (entry_paths [] (key ∷ []));
    } in
    (revision + 1, newest max_ledger_entries (ledger ++ entry ∷ []))

-- How an edit is answered. `served`: the revision went up by one and the ledger has the edit's own
-- file or symbol.
-- `refused_stale`: nothing is changed at all. `not_served`: the files, the revision and the ledger
-- are as they were.
pub data Served (own : Text → Type 0) (start : Disk Manager) : Reply × Disk Manager → Type 0 where
  served :
      (key : Text) (r : EditResponse) (d : Disk Manager)
      → own key
      → r.old_revision ≡ revision_string start.observer.revision
      → r.new_revision ≡ revision_string (start.observer.revision + 1)
      → r.changed ≡ key ∷ []
      → recorded d.observer ≡ with_entry key (recorded start.observer)
      → Served own start (accepted r, d)
  refused_stale : (e : StaleRevision) → Served own start (stale e, start)
  not_served :
      (e : IndexError) (d : Disk Manager)
      → d.files ≡ start.files
      → recorded d.observer ≡ recorded start.observer
      → Served own start (failed e, d)

bump_revision-recorded :
    (key : Text) (m : Manager)
    → recorded (bump_revision (key ∷ []) m).1 ≡ with_entry key (recorded m)
unfolding bump_revision
bump_revision-recorded key m = by_bus _ m.bus
  where
    by_bus :
        (e : Event) (b : Option Bus)
        → recorded (emit e (bumped (key ∷ []) m) b) ≡ with_entry key (recorded m)
    by_bus e none = refl
    by_bus e (some b) = refl

module _ (formatter_for : Text → Option Formatter) (resolves : Text → Bool) where
  record_edit-Served :
      (own : Text → Type 0) (start : Disk Manager) (key path : Text) (to_format : List Text)
      (added removed : ℕ) (text : Text) (d : Disk Manager)
      → own key
      → recorded d.observer ≡ recorded start.observer
      → Served own start
          (record_edit formatter_for resolves key path to_format added removed text d)
  unfolding bump_revision
  record_edit-Served own start key path to_format added removed text d k e =
      let d1 = (format_files formatter_for to_format d).1 in
      let e1 : recorded d1.observer ≡ recorded start.observer =
        format_files-recorded formatter_for to_format d ∙ e in
      served key _ _ k (ap (λ r. revision_string r.0) e1) (ap (λ r. revision_string (r.0 + 1)) e1)
        refl
        (ap recorded (snippets-observer resolves path text _)
          ∙ bump_revision-recorded key d1.observer
          ∙ ap (with_entry key) e1)

  after_edit-Served :
      {A : Type 0} (own : Text → Type 0) (start : Disk Manager) (path : Text)
      (r : Answer A × Disk Manager) (next : A → Disk Manager → Reply × Disk Manager)
      → Safe path start.files r
      → recorded r.1.observer ≡ recorded start.observer
      → ((value : A) (d : Disk Manager)
          → r ≡ (ok value, d)
          → recorded d.observer ≡ recorded start.observer
          → Served own start (next value d))
      → Served own start (after_edit formatter_for resolves next r)
  after_edit-Served own start path _ next (changed value d h) e go = go value d refl e
  after_edit-Served own start path _ next (same x d h) e go = not_served x d h e

  checking-Served :
      (own : Text → Type 0) (expected : Text) (next : Disk Manager → Reply × Disk Manager)
      (d : Disk Manager)
      → Served own d (next d)
      → Served own d (checking formatter_for resolves expected next d)
  checking-Served own expected next d h = by_check (check_revision expected d.observer)
    where
      by_check :
          (o : Option StaleRevision) → Served own d (unless_stale formatter_for resolves o next d)
      by_check none = h
      by_check (some e) = refused_stale e

  module _ (symbols_of : Text → Text → List Symbol) where
    -- The path of the symbol that the deletion answers.
    abbrev pub DeletedIn : Text → Text → Disk Manager → Text → Type 0
    DeletedIn path symbol_id d key =
        (s : Symbol) × (removed : List Text) × (d' : Disk Manager) × (delete_symbol_source
            before_write resolves symbols_of path symbol_id d
          ≡ (ok (s, removed), d'))
        × (key ≡ s.path)

    -- The id of the symbol that the replacement answers.
    abbrev pub ReplacedAs : Text → Text → Disk Manager → Text → Type 0
    ReplacedAs symbol_id text d key =
        (s : Symbol) × (old_lines : List Text) × (d' : Disk Manager) × (replace_symbol_source
            before_write resolves symbols_of symbol_id text d
          ≡ (ok (s, old_lines), d'))
        × (key ≡ s.id)

    -- Every edit of the service takes the workspace one revision on and records in the ledger its
    -- file, the path of the symbol that the deletion answered or the id of the symbol that the
    -- replacement answered, or is refused for a stale revision and changes nothing, or fails and
    -- leaves the files, the revision and the ledger as they were.
    pub edits-Served :
        (path expected text other position symbol_id : Text) (start end : ℕ) (d : Disk Manager)
        → Served
            (λ key. key ≡ path)
            d
            (replace_range formatter_for resolves path expected start end text d)
          × Served
              (λ key. key ≡ path)
              d
              (replace_text formatter_for resolves path expected other text d)
          × Served
              (λ key. key ≡ path)
              d
              (insert_text formatter_for resolves path expected other position text d)
          × Served (λ key. key ≡ path) d (create formatter_for resolves path text d)
          × Served (λ key. key ≡ path) d (replace_file formatter_for resolves path text d)
          × Served (λ key. key ≡ path) d (remove_path formatter_for resolves path d)
          × Served
              (DeletedIn path symbol_id d)
              d
              (delete_symbol formatter_for resolves symbols_of path symbol_id expected d)
          × Served
              (ReplacedAs symbol_id text d)
              d
              (replace_symbol formatter_for resolves symbols_of symbol_id expected text d)
    unfolding replace_range replace_text insert_text create replace_file remove_path delete_symbol
        replace_symbol
    edits-Served path expected text other position symbol_id start end d =
        let safe = edits-Safe before_write resolves path other position text start end d in
        (
          checking-Served _ expected _ d (
              after_edit-Served _ d path _ _ safe.2
                (replace_range_source-Same before_write recorded before_write-recorded resolves path
                  start end text d)
                (λ lines d' _ e. record_edit-Served _ d path path _ _ _ text d' refl e)),
          checking-Served _ expected _ d (
              after_edit-Served _ d path _ _ safe.1
                (replace_text_source-Same before_write recorded before_write-recorded resolves path
                  other text d)
                (λ lines d' _ e. record_edit-Served _ d path path _ _ _ text d' refl e)),
          checking-Served _ expected _ d (
              after_edit-Served _ d path _ _ safe.0
                (insert_source-Same before_write recorded before_write-recorded resolves path other
                  position text d)
                (λ lines d' _ e. record_edit-Served _ d path path _ _ _ text d' refl e)),
          after_edit-Served _ d path _ _ (create_file-Safe before_write resolves path text d)
              (create_file-Same before_write recorded before_write-recorded resolves path text d)
              (λ lines d' _ e. record_edit-Served _ d path path _ _ _ [] d' refl e),
          after_edit-Served _ d path _ _ safe.3
              (replace_file_source-Same before_write recorded before_write-recorded resolves path
                text d)
              (λ lines d' _ e. record_edit-Served _ d path path _ _ _ [] d' refl e),
          after_edit-Served _ d path _ _ safe.4
              (delete_file-Same before_write recorded before_write-recorded resolves path d)
              (λ lines d' _ e. record_edit-Served _ d path path _ _ _ [] d' refl e),
          checking-Served _ expected _ d (
              after_edit-Served _ d path _ _
                (delete_symbol_source-Safe before_write resolves symbols_of path symbol_id d)
                (delete_symbol_source-Same before_write recorded before_write-recorded resolves
                  symbols_of path symbol_id d)
                (λ v d' a e.
                  record_edit-Served _ d v.0.path v.0.path _ _ _ [] d' (v.0, v.1, d', a, refl) e)),
          checking-Served _ expected _ d (
              let (home, safe_home) =
                replace_symbol_source-somewhere before_write resolves symbols_of symbol_id text d in
              after_edit-Served _ d home _ _ safe_home
                (replace_symbol_source-Same before_write recorded before_write-recorded resolves
                  symbols_of symbol_id text d)
                (λ v d' a e.
                  record_edit-Served _ d v.0.id v.0.path _ _ _ [] d' (v.0, v.1, d', a, refl) e)),
        )
