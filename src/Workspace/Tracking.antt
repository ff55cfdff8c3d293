-- ===== src/Workspace/Tracking.antt =====
-- What a checkpoint knows of the files it was taken of, through every write since.
use mathlib.Core.Path.{subst}
use arno.Base.{
  ◌≡◌, refl, ap, ◌∙◌, Bool, true, false, List, [], ◌∷◌, Option, none, some, Text, text_eq,
  text_eq_iff, text_eq_self, if◌then◌else◌, Dict, lookup, lookup-insert, Bool-cases, inl, inr,
  arith, Distinct, insert-Distinct,
}
use arno.Disk.{Disk, Node, read_file, read_node, tail_of, notify, write_file, remove_file, OsError}
use arno.Disk.Atomic.{
  data_in, data_at, told, Ended, succeeded, refused, write_file-Ended, remove_file-Ended,
}
use arno.Disk.AllOrNothing.{at_insert, at_remove}
use arno.Workspace.{Manager, CheckpointSnapshot, PriorState}
use arno.Workspace.Checkpoints.{before_write, note_all, noting, is_some}

-- What a snapshot says that a path held: the captured data, or what was noted before the first
-- write, or else what the path holds now.
abbrev pub prior_value : PriorState → Option Text
prior_value st = if st.existed then some st.data_of else none

abbrev pub prior_or : Option Text → Option PriorState → Option Text
prior_or now none = now
prior_or now (some st) = prior_value st

abbrev pub known : Option Text → Option PriorState → Option Text → Option Text
known (some bytes) o now = some bytes
known none o now = prior_or now o

abbrev pub recorded : CheckpointSnapshot → Text → Option Text → Option Text
recorded s path now = known (lookup path s.files) (lookup path s.prior) now

-- Through the snapshot every path's data at the time of the checkpoint can still be told from the
-- files as they are now.
abbrev pub Tracks : (Text → Option Text) → CheckpointSnapshot → Dict Node → Type 0
Tracks at_checkpoint s now = (path : Text) → recorded s path (data_at path now) ≡ at_checkpoint path

abbrev state_of : Option Text → PriorState
state_of none = record { data_of = []; existed = false }
state_of (some bytes) = record { data_of = bytes; existed = true }

prior_value-state_of : (held : Option Text) → prior_value (state_of held) ≡ held
prior_value-state_of none = refl
prior_value-state_of (some bytes) = refl

noting-same :
    (rel : Text) (held next : Option Text) (s : CheckpointSnapshot)
    → recorded (noting rel (state_of held) s) rel next ≡ recorded s rel held
noting-same rel held next s = by_case (lookup rel s.files) (lookup rel s.prior) refl refl
  where
    by_case :
        (f : Option Text) (p : Option PriorState)
        → lookup rel s.files ≡ f
        → lookup rel s.prior ≡ p
        → recorded (noting rel (state_of held) s) rel next ≡ recorded s rel held
    by_case (some bytes) p ef ep = rw ef (rw ef refl)
    by_case none (some st) ef ep = rw (ef, ep) (rw (ef, ep) refl)
    by_case none none ef ep =
        rw (ef, ep) (rw (ef, lookup-insert, text_eq_self rel) (prior_value-state_of held))

noting-other :
    (rel path : Text) (state : PriorState) (now : Option Text) (s : CheckpointSnapshot)
    → text_eq rel path ≡ false
    → recorded (noting rel state s) path now ≡ recorded s path now
noting-other rel path state now s ne = by_case (lookup rel s.files) (lookup rel s.prior) refl refl
  where
    by_case :
        (f : Option Text) (p : Option PriorState)
        → lookup rel s.files ≡ f
        → lookup rel s.prior ≡ p
        → recorded (noting rel state s) path now ≡ recorded s path now
    by_case (some bytes) p ef ep = rw ef refl
    by_case none (some st) ef ep = rw (ef, ep) refl
    by_case none none ef ep = rw (ef, ep) (rw (lookup-insert, ne) refl)

-- A path is noted with what it holds, and then it alone changes: what the snapshot tells of the
-- time of the checkpoint is the same.
noting-Tracks :
    (at_checkpoint : Text → Option Text) (rel : Text) (s : CheckpointSnapshot)
    (now next : Dict Node)
    → ((path : Text) → text_eq rel path ≡ false → data_at path next ≡ data_at path now)
    → Tracks at_checkpoint s now
    → Tracks at_checkpoint (noting rel (state_of (data_at rel now)) s) next
noting-Tracks at_checkpoint rel s now next same h path = elim (Bool-cases (text_eq rel path)) [
  | inr ne ↦
      noting-other rel path (state_of (data_at rel now)) (data_at path next) s ne
      ∙ ap (recorded s path) (same path ne)
      ∙ h path
  | inl e ↦
      subst
        (λ q.
          recorded (noting rel (state_of (data_at rel now)) s) q (data_at q next) ≡ at_checkpoint q)
        ((text_eq_iff rel path).0 e)
        (noting-same rel (data_at rel now) (data_at rel next) s ∙ h rel)
]

-- What the manager keeps of a checkpoint after it was told of a path.
lookup-note_all :
    (f : CheckpointSnapshot → CheckpointSnapshot) (id : Text) (s : CheckpointSnapshot)
    (ckpts : Dict CheckpointSnapshot)
    → lookup id ckpts ≡ some s
    → lookup id (note_all f ckpts) ≡ some (f s)
unfolding note_all lookup
lookup-note_all f id s [] h = absurd (nothing h)
  where
    nothing : none ≡ some s → ⊥
    nothing e = cc
lookup-note_all f id s ((j, t) ∷ ckpts) h = ground (arith, lookup-note_all f id s ckpts)

told-ckpts :
    (rel id : Text) (s : CheckpointSnapshot) (d : Disk Manager)
    → d.read_faults ≡ []
    → lookup id d.observer.ckpts ≡ some s
    → lookup id (told before_write rel d).ckpts
      ≡ some (noting rel (state_of (data_at rel d.files)) s)
unfolding notify read_file before_write
told-ckpts rel id s d reads h = rw reads (by_node (lookup rel d.files))
  where
    by_node :
        (n : Option Node)
        → lookup id (before_write rel (read_node n) d.observer).ckpts
          ≡ some (noting rel (state_of (data_in n)) s)
    by_node none = lookup-note_all (noting rel (state_of none)) id s d.observer.ckpts h
    by_node (some n) =
        lookup-note_all (noting rel (state_of (some n.data_of))) id s d.observer.ckpts h

noting-files :
    (rel : Text) (state : PriorState) (s : CheckpointSnapshot)
    → (noting rel state s).files ≡ s.files
noting-files rel state s = ground arith

noting-Distinct :
    (rel : Text) (state : PriorState) (s : CheckpointSnapshot)
    → Distinct s.prior
    → Distinct (noting rel state s).prior
noting-Distinct rel state s h = elim (Bool-cases (is_some (lookup rel s.files))) [
  | inl e ↦ rw e h
  | inr e ↦ elim (Bool-cases (is_some (lookup rel s.prior))) [
    | inl e' ↦ rw (e, e') h
    | inr e' ↦ rw (e, e') (insert-Distinct rel state s.prior h)
  ]
]

-- A checkpoint that the manager keeps and that tracks the files; reads do not fail.
pub record Kept (at_checkpoint : Text → Option Text) (id : Text) (d : Disk Manager) : Type 0 where
  pub snapshot : CheckpointSnapshot
  pub found : lookup id d.observer.ckpts ≡ some snapshot
  pub tracks : Tracks at_checkpoint snapshot d.files
  pub readable : d.read_faults ≡ []
  pub files_once : Distinct snapshot.files
  pub prior_once : Distinct snapshot.prior

tail_none : (bs : List Bool) → bs ≡ [] → tail_of bs ≡ []
tail_none bs e = rw e refl

Ended-Kept :
    (at_checkpoint : Text → Option Text) (id rel : Text) (d : Disk Manager) (goal : Dict Node)
    → ((path : Text) → text_eq rel path ≡ false → data_at path goal ≡ data_at path d.files)
    → Kept at_checkpoint id d
    → (r : Option OsError × Disk Manager)
    → Ended d.files goal (tail_of d.read_faults) (told before_write rel d) r
    → Kept at_checkpoint id r.1
Ended-Kept at_checkpoint id rel d goal same k _ (succeeded d' h) = record {
  snapshot = noting rel (state_of (data_at rel d.files)) k.snapshot;
  found =
      ap (λ m. lookup id m.ckpts) h.observer_eq ∙ told-ckpts rel id k.snapshot d k.readable k.found;
  tracks = rw h.files_eq (noting-Tracks at_checkpoint rel k.snapshot d.files goal same k.tracks);
  readable = h.reads_eq ∙ tail_none d.read_faults k.readable;
  files_once = rw (noting-files rel _ k.snapshot) k.files_once;
  prior_once = noting-Distinct rel _ k.snapshot k.prior_once;
}
Ended-Kept at_checkpoint id rel d goal same k _ (refused e d' h) = record {
  snapshot = noting rel (state_of (data_at rel d.files)) k.snapshot;
  found =
      ap (λ m. lookup id m.ckpts) h.observer_eq ∙ told-ckpts rel id k.snapshot d k.readable k.found;
  tracks =
      rw h.files_eq
        (noting-Tracks at_checkpoint rel k.snapshot d.files d.files (λ _ _. refl) k.tracks);
  readable = h.reads_eq ∙ tail_none d.read_faults k.readable;
  files_once = rw (noting-files rel _ k.snapshot) k.files_once;
  prior_once = noting-Distinct rel _ k.snapshot k.prior_once;
}

-- Where reads do not fail, a write, whether it succeeds or fails, keeps what a checkpoint knows.
pub write_file-Kept :
    (at_checkpoint : Text → Option Text) (id path bytes : Text) (d : Disk Manager)
    → Kept at_checkpoint id d
    → Kept at_checkpoint id (write_file before_write path bytes d).1
write_file-Kept at_checkpoint id path bytes d k =
    Ended-Kept at_checkpoint id path d _ (λ q ne. rw ne at (at_insert path q bytes d.files)) k _
      (write_file-Ended before_write path bytes d)

-- Where reads do not fail, a removal, whether it succeeds or fails, keeps what a checkpoint knows.
pub remove_file-Kept :
    (at_checkpoint : Text → Option Text) (id path : Text) (d : Disk Manager)
    → Kept at_checkpoint id d
    → Kept at_checkpoint id (remove_file before_write path d).1
remove_file-Kept at_checkpoint id path d k =
    Ended-Kept at_checkpoint id path d _ (λ q ne. rw ne at (at_remove path q d.files)) k _
      (remove_file-Ended before_write path d)
