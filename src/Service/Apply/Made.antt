-- ===== src/Service/Apply/Made.antt =====
-- The loop over the edits of a batch that goes through: every edit made, one after the other.
use arno.Base.{
  Dict, Option, none, some, leb, ◌++◌, if◌then◌else◌, Bool-cases, inl, inr, ℕ, zero, ◌+◌, ◌≡◌, refl,
  sym, ap, ◌∙◌, Bool, false, ◌||◌, List, [], ◌∷◌, Text, text_eq, length, arith,
}
use arno.Disk.{Node, Disk}
use arno.Edits.Index.{Answer, ok, err}
use arno.Edits.Symbols.{Symbol}
use arno.Service.Apply.{ApplyResponse, max_snippets, EditOp, Progress, progressed, all_made}
use arno.Service.Apply.Run.{apply_one, after_one, apply_loop, show_written}
use arno.Service.Operations.{Formatter, format_files, snippets}
use arno.Service.Formatted.{snippets-files, snippets-observer}
use arno.Events.{Event, Bus}
use arno.Service.{Snippet}
use arno.Workspace.{bump_revision, bumped, emit, revision_string, Manager, occurs}
use arno.Workspace.Since.{occurs-add_once}

-- Some edit names the path.
abbrev pub touches : Text → List EditOp → Bool
touches p [] = false
touches p (o ∷ edits) = text_eq o.path p || touches p edits

abbrev pub sum_added : List (ℕ × ℕ) → ℕ
sum_added [] = zero
sum_added ((added, removed) ∷ counts) = added + sum_added counts

abbrev pub sum_removed : List (ℕ × ℕ) → ℕ
sum_removed [] = zero
sum_removed ((added, removed) ∷ counts) = removed + sum_removed counts

module _ (resolves : Text → Bool) (symbols_of : Text → Text → List Symbol) where
  -- Every edit is made on the disk that the one before it left, and answers the lines that it adds
  -- and removes.
  pub data Made : List EditOp → List (ℕ × ℕ) → Disk Manager → Disk Manager → Type 0 where
    none_left : (d : Disk Manager) → Made [] [] d d
    and_then :
        (o : EditOp) (edits : List EditOp) (lines : ℕ × ℕ) (counts : List (ℕ × ℕ))
        (d d' end : Disk Manager)
        → apply_one resolves symbols_of o d ≡ (ok lines, d')
        → Made edits counts d' end
        → Made (o ∷ edits) (lines ∷ counts) d end

  -- What the loop has counted when it goes through, and the disk that it leaves.
  pub record WentThrough (progress done : Progress) (edits : List EditOp) (d end : Disk Manager)
      : Type 0 where
    pub counts : List (ℕ × ℕ)
    pub edits_made : Made edits counts d end
    pub applied_eq : done.applied ≡ progress.applied + length edits
    pub added_eq : done.added ≡ progress.added + sum_added counts
    pub removed_eq : done.removed ≡ progress.removed + sum_removed counts
    pub touched_iff :
        (p : Text) → occurs p done.touched ≡ (occurs p progress.touched || touches p edits)

  or_nothing : (b : Bool) → b ≡ (b || false)
  or_nothing b = ground arith

  pub apply_loop-WentThrough :
      (index : ℕ) (progress done : Progress) (edits : List EditOp) (d : Disk Manager)
      → (apply_loop resolves symbols_of index progress edits d).0 ≡ all_made done
      → WentThrough progress done edits d (apply_loop resolves symbols_of index progress edits d).1
  unfolding apply_loop
  apply_loop-WentThrough index progress done [] d e =
      let same : progress ≡ done = cc in
      record {
        counts = [];
        edits_made = none_left d;
        applied_eq = ap (λ p. p.applied) (sym same) ∙ omega arith;
        added_eq = ap (λ p. p.added) (sym same) ∙ omega arith;
        removed_eq = ap (λ p. p.removed) (sym same) ∙ omega arith;
        touched_iff = λ p. ap (λ q. occurs p q.touched) (sym same) ∙ or_nothing _;
      }
  apply_loop-WentThrough index progress done (o ∷ edits) d e =
      by_answer (apply_one resolves symbols_of o d) refl
        (λ lines d'. apply_loop-WentThrough (index + 1) (progressed o lines progress) done edits d')
        e
    where
      by_answer :
          (r : Answer (ℕ × ℕ) × Disk Manager)
          → apply_one resolves symbols_of o d ≡ r
          → ((lines : ℕ × ℕ) (d' : Disk Manager)
              → (apply_loop resolves symbols_of
                  (index + 1)
                  (progressed o lines progress)
                  edits
                  d').0
                ≡ all_made done
              → WentThrough
                  (progressed o lines progress)
                  done
                  edits
                  d'
                  (apply_loop resolves symbols_of
                    (index + 1)
                    (progressed o lines progress)
                    edits
                    d').1)
          → (after_one resolves symbols_of
              (index + 1)
              o
              progress
              (λ progress d. apply_loop resolves symbols_of (index + 1) progress edits d)
              r).0
            ≡ all_made done
          → WentThrough progress done
              (o ∷ edits)
              d
              (after_one resolves symbols_of
                (index + 1)
                o
                progress
                (λ progress d. apply_loop resolves symbols_of (index + 1) progress edits d)
                r).1
      by_answer (err x, d') q go e = absurd cc
      by_answer (ok (added, removed), d') q go e =
          let h = go (added, removed) d' e in
          record {
            counts = (added, removed) ∷ h.counts;
            edits_made = and_then o edits (added, removed) h.counts d d' _ q h.edits_made;
            applied_eq = h.applied_eq ∙ omega arith;
            added_eq = h.added_eq ∙ omega arith;
            removed_eq = h.removed_eq ∙ omega arith;
            touched_iff =
                λ p. ground (arith, h.touched_iff p, occurs-add_once p progress.touched o.path);
          }

  pub show_written-same :
      (shown : List Snippet) (written : List EditOp) (d : Disk Manager)
      → ((show_written resolves symbols_of shown written d).1.files ≡ d.files)
        × ((show_written resolves symbols_of shown written d).1.observer ≡ d.observer)
  unfolding show_written
  show_written-same shown [] d = (refl, refl)
  show_written-same shown (o ∷ written) d = elim (Bool-cases (leb max_snippets (length shown))) [
    | inl e ↦ rw e (refl, refl)
    | inr e ↦
        let (more, d') = snippets resolves o.path o.new_text d in
        let rest = show_written-same (shown ++ more) written d' in
        rw e (
          rest.0 ∙ snippets-files resolves o.path o.new_text d,
          rest.1 ∙ snippets-observer resolves o.path o.new_text d,
        )
  ]

  pub bump_revision-next :
      (paths : List Text) (m : Manager) → (bump_revision paths m).1.revision ≡ m.revision + 1
  unfolding bump_revision
  bump_revision-next paths m = by_bus _ m.bus
    where
      by_bus : (e : Event) (b : Option Bus) → (emit e (bumped paths m) b).revision ≡ m.revision + 1
      by_bus e none = refl
      by_bus e (some b) = refl

  pub bump_revision-new :
      (paths : List Text) (m : Manager)
      → (bump_revision paths m).0.1 ≡ revision_string (m.revision + 1)
  unfolding bump_revision
  bump_revision-new paths m = refl

  pub occurs-none : (p : Text) (b : Bool) → (occurs p [] || b) ≡ b
  unfolding occurs
  occurs-none p b = refl

  module _ (formatter_for : Text → Option Formatter) where
    -- A batch of which every edit was made, from the files at its start on. `behind_edits` is the
    -- disk behind the last edit; the formatter then runs on the changed files where it is asked
    -- for, and the revision goes up by one.
    pub record MadeWhole (start : Dict Node) (format : Bool) (edits : List EditOp)
        (r : ApplyResponse) (d : Disk Manager) : Type 0 where
      pub begun : Disk Manager
      pub behind_edits : Disk Manager
      pub counts : List (ℕ × ℕ)
      pub from_start : begun.files ≡ start
      pub edits_made : Made edits counts begun behind_edits
      pub files_eq :
          d.files
          ≡ (format_files formatter_for (if format then r.changed else []) behind_edits).1.files
      pub revision_eq : d.observer.revision ≡ behind_edits.observer.revision + 1
      pub new_revision_eq : r.new_revision ≡ revision_string d.observer.revision
      pub applied_eq : r.applied ≡ length edits
      pub added_eq : r.added_lines ≡ sum_added counts
      pub removed_eq : r.removed_lines ≡ sum_removed counts
      pub changed_iff : (p : Text) → occurs p r.changed ≡ touches p edits
