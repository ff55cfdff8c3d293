-- ===== src/Service/Apply/Atomic.antt =====
-- Several edits as one unit: a request that fails leaves the files as they were.
use mathlib.Core.Path.{subst}
use arno.Base.{
  ◌≡◌, refl, sym, ◌∙◌, Bool, true, false, ◌||◌, List, [], ◌∷◌, ◌++◌, Option, some, Text, text_eq,
  text_eq_iff, text_eq_self, if◌then◌else◌, Dict, All, All-append, arith,
}
use arno.Disk.{Node, Disk, Read, OsError, contents, missing, unreadable, read_file, write_file}
use arno.Disk.Atomic.{read_file-contents, data_at}
use arno.Disk.AllOrNothing.{Put, did, did_not, write-Put}
use arno.Service.Apply.{
  EditOp, Snapshots, has_snapshot, restore_files, note_lost, Saving, saved, not_saved,
  snapshot_files, save_read,
}
use arno.Workspace.{Manager, occurs}
use arno.Workspace.Checkpoints.{before_write}

-- What was saved of a path is what it held.
abbrev pub IsSaved : Dict Node → Text × Text → Type 0
IsSaved start (path, bytes) = data_at path start ≡ some bytes

-- The paths that were not saved hold what they held.
abbrev pub Covered : Snapshots → Dict Node → Dict Node → Type 0
Covered snapshots start now =
    (p : Text) → has_snapshot p snapshots ≡ false → data_at p now ≡ data_at p start

-- A value that the rest put back, or that the first write put back, is the one at the start.
put_back :
    (first rest : Bool) (held after start written now : Option Text)
    → held ≡ (if rest then start else after)
    → after ≡ (if first then written else now)
    → (first ≡ true → start ≡ written)
    → held ≡ (if first || rest then start else now)
put_back first true held after start written now e e' h = ground arith
put_back true false held after start written now e e' h = e ∙ e' ∙ sym (h refl)
put_back false false held after start written now e e' h = e ∙ e'

pub restored_at :
    (start : Dict Node) (w : Snapshots) (d : Disk Manager) (p : Text)
    → All (IsSaved start) w
    → occurs p (restore_files w d).0 ≡ false
    → data_at p (restore_files w d).1.files
      ≡ (if has_snapshot p w then data_at p start else data_at p d.files)
unfolding restore_files occurs
restored_at start [] d p h e = refl
restored_at start ((path, bytes) ∷ w) d p (hs, h) e =
    by_put (write_file before_write path bytes d) (write-Put before_write path bytes d) e
      (λ e'. restored_at start w (write_file before_write path bytes d).1 p h e')
  where
    by_put :
        (r : Option OsError × Disk Manager)
        → Put path (some bytes) d.files r
        → occurs p (note_lost path r.0 (restore_files w r.1).0) ≡ false
        → (occurs p (restore_files w r.1).0 ≡ false
            → data_at p (restore_files w r.1).1.files
              ≡ (if has_snapshot p w then data_at p start else data_at p r.1.files))
        → data_at p (restore_files w r.1).1.files
          ≡ (if text_eq path p || has_snapshot p w then data_at p start else data_at p d.files)
    by_put _ (did d1 at) e go =
        put_back (text_eq path p) (has_snapshot p w) _ _ _ _ _ (go e) (at p)
          (λ eq. subst (λ q. data_at q start ≡ some bytes) ((text_eq_iff path p).0 eq) hs)
    by_put _ (did_not x d1 at) e go =
        let apart : text_eq path p ≡ false = ground arith in
        let others : occurs p (restore_files w d1).0 ≡ false = ground arith in
        rw apart (
          subst
            (λ files.
              data_at p (restore_files w d1).1.files
              ≡ (if has_snapshot p w then data_at p start else data_at p files))
            at (go others))

has_snapshot-append :
    (p path bytes : Text) (w : Snapshots)
    → has_snapshot p (w ++ (path, bytes) ∷ []) ≡ (has_snapshot p w || text_eq path p)
has_snapshot-append p path bytes [] = ground arith
has_snapshot-append p path bytes ((q, b) ∷ w) = ground (arith, has_snapshot-append p path bytes w)

-- `w` is what was saved before. Every edit's file is saved as it was, or one could not be read.
pub data Snapped (start : Dict Node) (w : Snapshots) (edits : List EditOp)
    : Saving × Disk Manager → Type 0 where
  snapped :
      (all : Snapshots) (d : Disk Manager)
      → All (IsSaved start) all
      → ((p : Text) → has_snapshot p w ≡ true → has_snapshot p all ≡ true)
      → All (λ o. has_snapshot o.path all ≡ true) edits
      → d.files ≡ start
      → Snapped start w edits (saved all, d)
  unread :
      (path : Text) (d : Disk Manager) → d.files ≡ start → Snapped start w edits (not_saved path, d)

pub snapshot_files-Snapped :
    (start : Dict Node) (w : Snapshots) (edits : List EditOp) (d : Disk Manager)
    → All (IsSaved start) w
    → d.files ≡ start
    → Snapped start w edits (snapshot_files w edits d)
unfolding snapshot_files
snapshot_files-Snapped start w [] d h e = snapped w d h (λ p q. q) tt e
snapshot_files-Snapped start w (o ∷ edits) d h e =
    by_test (has_snapshot o.path w) refl (snapshot_files-Snapped start w edits d h e) (
      by_read (read_file o.path d).0 (read_file o.path d).1 (unfold read_file in e)
        (read_file-contents o.path d)
        (λ bytes saved_now d' e'.
          snapshot_files-Snapped start (w ++ (o.path, bytes) ∷ []) edits d'
            (All-append (IsSaved start) w _ h (saved_now, tt)) e'))
  where
    longer :
        (bytes : Text) (r : Saving × Disk Manager)
        → Snapped start (w ++ (o.path, bytes) ∷ []) edits r
        → Snapped start w (o ∷ edits) r
    longer bytes _ (unread path d' e') = unread path d' e'
    longer bytes _ (snapped all d' ha grows he e') =
        snapped all d' ha (λ p q. grows p (ground (arith, has_snapshot-append p o.path bytes w)))
          (
            grows o.path
                (ground (arith, has_snapshot-append o.path o.path bytes w, text_eq_self o.path)),
            he,
          )
          e'

    by_read :
        (r : Read) (d' : Disk Manager)
        → d'.files ≡ start
        → ((bytes : Text) → r ≡ contents bytes → data_at o.path d.files ≡ some bytes)
        → ((bytes : Text)
            → data_at o.path start ≡ some bytes
            → (d' : Disk Manager) → d'.files ≡ start
            → Snapped start
                (w ++ (o.path, bytes) ∷ [])
                edits
                (snapshot_files (w ++ (o.path, bytes) ∷ []) edits d'))
        → Snapped start w (o ∷ edits) (
            save_read o.path
              (λ bytes d2. snapshot_files (w ++ (o.path, bytes) ∷ []) edits d2)
              (r, d'))
    by_read missing d' e' held go = unread o.path d' e'
    by_read unreadable d' e' held go = unread o.path d' e'
    by_read (contents bytes) d' e' held go =
        longer bytes _
          (go bytes (subst (λ files. data_at o.path files ≡ some bytes) e (held bytes refl)) d' e')

    by_test :
        (b : Bool)
        → has_snapshot o.path w ≡ b
        → {r r' : Saving × Disk Manager} → Snapped start w edits r
        → Snapped start w (o ∷ edits) r'
        → Snapped start w (o ∷ edits) (if b then r else r')
    by_test false q h h' = h'
    by_test true q (unread path d' e') h' = unread path d' e'
    by_test true q (snapped all d' ha grows he e') h' =
        snapped all d' ha grows (grows o.path q, he) e'
