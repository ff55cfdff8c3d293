-- ===== src/Service/Formatted.antt =====
-- The formatter and the snippets leave the revision and the ledger.
use arno.Base.{
  ℕ, ◌≡◌, refl, ◌∙◌, Bool, true, false, not, ◌&&◌, Dict, text_eq, List, [], ◌∷◌, Option, none, some,
  Text, is_empty, trim_space, Bool-cases, inl, inr,
}
use arno.Disk.{Node, Disk, Read, contents, missing, unreadable, read_file}
use arno.Disk.Observer.{write_file-same}
use arno.Service.Operations.{
  Formatter, via_stdin, in_place, write_output, differs, after_run, run_chosen, run_formatter,
  run_or_skip, format_files, read_snippets, snippets,
}
use arno.Workspace.{Manager, RevisionEntry}
use arno.Workspace.Checkpoints.{before_write}

-- The revision and what the ledger records.
abbrev pub recorded : Manager → ℕ × List RevisionEntry
recorded m = (m.revision, m.ledger)

pub before_write-recorded :
    (path : Text) (r : Read) (m : Manager) → recorded (before_write path r m) ≡ recorded m
unfolding before_write
before_write-recorded path unreadable m = refl
before_write-recorded path missing m = refl
before_write-recorded path (contents bytes) m = refl

run_formatter-recorded :
    (chosen : Formatter) (path : Text) (d : Disk Manager)
    → recorded (run_formatter chosen path d).1.observer ≡ recorded d.observer
unfolding run_formatter
run_formatter-recorded chosen path d =
    by_read chosen (read_file path d).0 (read_file path d).1 (unfold read_file in refl)
  where
    kept : Disk Manager → Type 0
    kept d' = recorded d'.observer ≡ recorded d.observer

    by_output :
        (source : Text) (out : Option Text) (d' : Disk Manager)
        → kept d'
        → kept (write_output path source out d').1
    by_output source none d' e = e
    by_output source (some out) d' e = elim (Bool-cases (is_empty out && not (is_empty source))) [
      | inl q ↦ rw q e
      | inr q ↦ rw q (elim (Bool-cases (text_eq source out)) [
        | inl q' ↦ rw q' e
        | inr q' ↦
            rw q' (write_file-same before_write recorded before_write-recorded path out d' ∙ e)
      ])
    ]

    by_after :
        (source : Text) (r : Read) (d' : Disk Manager) → kept d' → kept (differs source (r, d')).1
    by_after source (contents after) d' e = e
    by_after source missing d' e = e
    by_after source unreadable d' e = e

    by_run :
        (source : Text) (r : Bool × Dict Node) (d' : Disk Manager)
        → kept d'
        → kept (after_run path source d' r).1
    by_run source (true, files) d' e =
        let now = record d' { files = files } in
        by_after source (read_file path now).0 (read_file path now).1 (unfold read_file in e)
    by_run source (false, files) d' e = e

    by_read :
        (chosen : Formatter) (r : Read) (d' : Disk Manager)
        → kept d'
        → kept (run_chosen chosen path (r, d')).1
    by_read (via_stdin print) (contents source) d' e = by_output source (print source) d' e
    by_read (in_place run) (contents source) d' e = by_run source (run path d'.files) d' e
    by_read (via_stdin print) missing d' e = e
    by_read (via_stdin print) unreadable d' e = e
    by_read (in_place run) missing d' e = e
    by_read (in_place run) unreadable d' e = e

pub format_files-recorded :
    (formatter_for : Text → Option Formatter) (paths : List Text) (d : Disk Manager)
    → recorded (format_files formatter_for paths d).1.observer ≡ recorded d.observer
unfolding format_files
format_files-recorded formatter_for [] d = refl
format_files-recorded formatter_for (path ∷ paths) d =
    format_files-recorded formatter_for paths
      (run_or_skip formatter_for (formatter_for path) path d).1
    ∙ by_formatter (formatter_for path)
  where
    by_formatter :
        (o : Option Formatter)
        → recorded (run_or_skip formatter_for o path d).1.observer ≡ recorded d.observer
    by_formatter none = refl
    by_formatter (some chosen) = run_formatter-recorded chosen path d

pub snippets-observer :
    (resolves : Text → Bool) (path text : Text) (d : Disk Manager)
    → (snippets resolves path text d).1.observer ≡ d.observer
unfolding snippets
snippets-observer resolves path text d = elim (Bool-cases (is_empty (trim_space text))) [
  | inl e ↦ rw e refl
  | inr e ↦ rw e (elim (Bool-cases (resolves path)) [
    | inr q ↦ rw q refl
    | inl q ↦ rw q (by_read (read_file path d).0 (read_file path d).1 (unfold read_file in refl))
  ])
]
  where
    by_read :
        (r : Read) (d' : Disk Manager)
        → d'.observer ≡ d.observer
        → (read_snippets path text (r, d')).1.observer ≡ d.observer
    by_read (contents source) d' e = e
    by_read missing d' e = e
    by_read unreadable d' e = e

pub snippets-files :
    (resolves : Text → Bool) (path text : Text) (d : Disk Manager)
    → (snippets resolves path text d).1.files ≡ d.files
unfolding snippets
snippets-files resolves path text d = elim (Bool-cases (is_empty (trim_space text))) [
  | inl e ↦ rw e refl
  | inr e ↦ rw e (elim (Bool-cases (resolves path)) [
    | inr q ↦ rw q refl
    | inl q ↦ rw q (by_read (read_file path d).0 (read_file path d).1 (unfold read_file in refl))
  ])
]
  where
    by_read :
        (r : Read) (d' : Disk Manager)
        → d'.files ≡ d.files
        → (read_snippets path text (r, d')).1.files ≡ d.files
    by_read (contents source) d' e = e
    by_read missing d' e = e
    by_read unreadable d' e = e
