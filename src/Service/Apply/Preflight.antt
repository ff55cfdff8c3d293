-- ===== src/Service/Apply/Preflight.antt =====
-- The preflight of a batch changes no file.
use arno.Base.{
  ℕ, ◌+◌, ◌≡◌, refl, ◌∙◌, Bool, true, false, not, List, [], ◌∷◌, Option, none, some, Text, is_empty,
  if◌then◌else◌, trim_space,
}
use arno.Disk.{Disk, Read, contents, missing, unreadable, read_file}
use arno.Service.Apply.{
  EditOp, Fault, preflight, preflight_one, validate_read, validate_op_shape, is_some_fault, or_next,
}
use arno.Workspace.{Manager, occurs}

preflight_one-files :
    (resolves : Text → Bool) (touched : List Text) (o : EditOp) (d : Disk Manager)
    → (preflight_one resolves touched o d).1.files ≡ d.files
unfolding preflight_one
preflight_one-files resolves touched o d = by_test (is_empty (trim_space o.path)) _ _ refl (
    by_test (is_some_fault (validate_op_shape o)) _ _ refl (
      by_test (not (resolves o.path)) _ _ refl (
        by_test (occurs o.path touched) _ _ refl
          (by_read (read_file o.path d).0 (read_file o.path d).1 (unfold read_file in refl)))))
  where
    by_test :
        (b : Bool) (r r' : Option Fault × Disk Manager)
        → r.1.files ≡ d.files
        → r'.1.files ≡ d.files
        → (if b then r else r').1.files ≡ d.files
    by_test true r r' e e' = e
    by_test false r r' e e' = e'

    by_read :
        (r : Read) (d' : Disk Manager)
        → d'.files ≡ d.files
        → (validate_read o (r, d')).1.files ≡ d.files
    by_read (contents source) d' e = e
    by_read missing d' e = e
    by_read unreadable d' e = e

pub preflight-files :
    (resolves : Text → Bool) (index : ℕ) (touched : List Text) (edits : List EditOp)
    (d : Disk Manager)
    → (preflight resolves index touched edits d).1.files ≡ d.files
unfolding preflight
preflight-files resolves index touched [] d = refl
preflight-files resolves index touched (o ∷ edits) d =
    by_answer (preflight_one resolves touched o d) (preflight_one-files resolves touched o d)
      (λ d'. preflight-files resolves (index + 1) (o.path ∷ touched) edits d')
  where
    by_answer :
        (r : Option Fault × Disk Manager)
        → r.1.files ≡ d.files
        → ((d' : Disk Manager)
            → (preflight resolves (index + 1) (o.path ∷ touched) edits d').1.files ≡ d'.files)
        → (or_next
            (index + 1)
            r
            (λ d'. preflight resolves (index + 1) (o.path ∷ touched) edits d')).1.files
          ≡ d.files
    by_answer (none, d') e go = go d' ∙ e
    by_answer (some fault, d') e go = e
