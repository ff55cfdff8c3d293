-- ===== src/Service/Apply/Run.antt =====
-- `Apply` of internal/edit/apply.go with `applyOne` and its loop.
use arno.Base.{
  ℕ, ◌+◌, Bool, List, [], ◌∷◌, ◌++◌, Option, none, some, Text, codes, leb, length, is_empty,
  if◌then◌else◌,
}
use arno.Disk.{Disk}
use arno.Edits.Index.{
  Answer, ok, err, IndexError, unknown_op, insert_source, replace_text_source, replace_range_source,
}
use arno.Edits.Symbols.{Symbol, symbols_by_name, replace_symbol_source, delete_symbol_source}
use arno.Service.{StaleRevision, check_revision, line_delta, count_lines, Snippet}
use arno.Service.Apply.{
  EditOp, ApplyRequest, ApplyEnd, applied_all, no_edits, stale_revision, refused_edit, no_snapshot,
  rolled_back, Fault, is_op, preflight, Snapshots, Saving, saved, not_saved, snapshot_files,
  restore_files, delta_answer, id_of_named, with_id, Progress, progressed, LoopEnd, all_made,
  stopped, max_snippets,
}
use arno.Service.Operations.{Formatter, format_files, snippets}
use arno.Workspace.{Manager, bump_revision, sorted}
use arno.Workspace.Checkpoints.{before_write}

abbrev pub no_progress : Progress
no_progress = record { applied = 0; added = 0; removed = 0; touched = []; written = [] }

module _ (resolves : Text → Bool) (symbols_of : Text → Text → List Symbol) where
  unfoldable pub resolve_symbol : EditOp → Disk Manager → Answer Text × Disk Manager
  resolve_symbol o d =
      if is_empty o.symbol_id
      then id_of_named o.symbol_name
          (symbols_by_name before_write resolves symbols_of o.path o.symbol_name d)
      else (ok o.symbol_id, d)

  unfoldable pub apply_one : EditOp → Disk Manager → Answer (ℕ × ℕ) × Disk Manager
  apply_one o d =
      if is_op o (codes "replace_text")
      then delta_answer (λ lines. line_delta o.old_text o.new_text)
          (replace_text_source before_write resolves o.path o.old_text o.new_text d)
      else if is_op o (codes "replace_range")
      then delta_answer (λ old_lines. (count_lines o.new_text, length old_lines))
          (replace_range_source before_write resolves o.path o.start_line o.end_line o.new_text d)
      else if is_op o (codes "replace_symbol")
      then with_id (resolve_symbol o d) (λ id d.
        delta_answer (λ (s, old_lines). (count_lines o.new_text, length old_lines))
          (replace_symbol_source before_write resolves symbols_of id o.new_text d))
      else if is_op o (codes "delete_symbol")
      then with_id (resolve_symbol o d) (λ id d.
        delta_answer (λ (s, removed). (0, length removed))
          (delete_symbol_source before_write resolves symbols_of o.path id d))
      else if is_op o (codes "insert")
      then delta_answer (λ added. (added, 0))
          (insert_source before_write resolves o.path o.anchor o.position o.new_text d)
      else (err (unknown_op o.op), d)

  abbrev pub after_one :
      ℕ
      → EditOp
      → Progress
      → (Progress → Disk Manager → LoopEnd × Disk Manager)
      → Answer (ℕ × ℕ) × Disk Manager
      → LoopEnd × Disk Manager
  after_one index o progress next (err e, d) = (stopped index e, d)
  after_one index o progress next (ok lines, d) = next (progressed o lines progress) d

  unfoldable pub apply_loop : ℕ → Progress → List EditOp → Disk Manager → LoopEnd × Disk Manager
  apply_loop index progress [] d = (all_made progress, d)
  apply_loop index progress (o ∷ edits) d =
      after_one (index + 1) o progress (λ progress d. apply_loop (index + 1) progress edits d)
        (apply_one o d)

  -- `if len(response.Snippets) >= maxSnippets { break }`
  unfoldable pub show_written :
      List Snippet → List EditOp → Disk Manager → List Snippet × Disk Manager
  show_written shown [] d = (shown, d)
  show_written shown (o ∷ written) d =
      let (more, d') = snippets resolves o.path o.new_text d in
      let rest = show_written (shown ++ more) written d' in
      if leb max_snippets (length shown) then (shown, d) else rest

  module _ (formatter_for : Text → Option Formatter) where
    unfoldable pub conclude : Bool → Progress → Disk Manager → ApplyEnd × Disk Manager
    conclude format progress d =
        let changed = sorted progress.touched in
        let (formatted, d1) = format_files formatter_for (if format then changed else []) d in
        let ((old_revision, new_revision), m) = bump_revision changed d1.observer in
        let (shown, d2) = show_written [] progress.written (record d1 { observer = m }) in
        (
          applied_all (record {
            old_revision = old_revision;
            new_revision = new_revision;
            applied = progress.applied;
            changed = changed;
            added_lines = progress.added;
            removed_lines = progress.removed;
            formatted = formatted;
            snippets = shown;
          }),
          d2,
        )

    abbrev pub roll_back : ℕ → IndexError → List Text × Disk Manager → ApplyEnd × Disk Manager
    roll_back index e (lost, d) = (rolled_back index e lost, d)

    abbrev pub after_loop : Bool → Snapshots → LoopEnd × Disk Manager → ApplyEnd × Disk Manager
    after_loop format snapshots (all_made progress, d) = conclude format progress d
    after_loop format snapshots (stopped index e, d) = roll_back index e (restore_files snapshots d)

    abbrev pub after_snapshots : ApplyRequest → Saving × Disk Manager → ApplyEnd × Disk Manager
    after_snapshots req (not_saved path, d) = (no_snapshot path, d)
    after_snapshots req (saved snapshots, d) =
        after_loop req.format snapshots (apply_loop 0 no_progress req.edits d)

    abbrev pub after_preflight :
        ApplyRequest → Option (ℕ × Fault) × Disk Manager → ApplyEnd × Disk Manager
    after_preflight req (some (index, fault), d) = (refused_edit index fault, d)
    after_preflight req (none, d) = after_snapshots req (snapshot_files [] req.edits d)

    abbrev pub after_check :
        ApplyRequest → Option StaleRevision → Disk Manager → ApplyEnd × Disk Manager
    after_check req (some e) d = (stale_revision e, d)
    after_check req none d = after_preflight req (preflight resolves 0 [] req.edits d)

    unfoldable pub apply : ApplyRequest → Disk Manager → ApplyEnd × Disk Manager
    apply req d =
        if is_empty req.edits
        then (no_edits, d)
        else after_check req (check_revision req.expected_revision d.observer) d
