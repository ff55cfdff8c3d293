-- ===== src/Disk/Atomic.antt =====
-- One write or removal: it happens as a whole, or the files are as they were.
use arno.Base.{
  true, false, ◌≡◌, refl, ap, Bool, List, Option, none, some, Text, if◌then◌else◌, Dict, lookup,
  insert, remove, Bool-cases, inl, inr,
}
use arno.Disk.{
  contents, unreadable, read_node, head_or_false, Node, OsError, not_exist, other, Read, Disk,
  Change, fails, tick, tail_of, read_file, removed, os_remove, or_fail, notify, remove_file,
  through_temp, write_file, mode_or_default,
}

-- What a path holds: its data, or nothing.
abbrev pub data_in : Option Node → Option Text
data_in none = none
data_in (some n) = some n.data_of

abbrev pub data_at : Text → Dict Node → Option Text
data_at path files = data_in (lookup path files)

-- What a change asks a path to hold.
abbrev pub asked : Change → Option Text
asked c = if c.removes then none else some c.data_of

-- The node that a write leaves at its path; a file that is there keeps its mode.
abbrev pub node_for : Text → Text → Dict Node → Node
node_for path bytes files = record { data_of = bytes; mode = mode_or_default (lookup path files) }

module _ {ℓ} {S : Type ℓ} where
  pub record Holds (files : Dict Node) (reads : List Bool) (o : S) (d : Disk S) : Type ℓ where
    pub files_eq : d.files ≡ files
    pub reads_eq : d.read_faults ≡ reads
    pub observer_eq : d.observer ≡ o

  -- An operation that was to turn `start` into `goal` has done so, or has failed and left `start`.
  pub data Ended (start goal : Dict Node) (reads : List Bool) (o : S)
      : Option OsError × Disk S → Type ℓ where
    succeeded : (d : Disk S) → Holds goal reads o d → Ended start goal reads o (none, d)
    refused :
        (e : OsError) (d : Disk S) → Holds start reads o d → Ended start goal reads o (some e, d)

  or_fail-Ended :
      (start goal : Dict Node) (reads : List Bool) (o : S) (d : Disk S)
      (next : Disk S → Option OsError × Disk S)
      → Holds start reads o d
      → ((d' : Disk S) → Holds start reads o d' → Ended start goal reads o (next d'))
      → Ended start goal reads o (or_fail d next)
  or_fail-Ended start goal reads o d next h go = elim (Bool-cases (fails d)) [
    | inl e ↦
        unfold or_fail in
        rw e (
          refused other _
            (record { files_eq = h.files_eq; reads_eq = h.reads_eq; observer_eq = h.observer_eq }))
    | inr e ↦
        unfold or_fail in
        rw e (
          go (tick d)
            (record { files_eq = h.files_eq; reads_eq = h.reads_eq; observer_eq = h.observer_eq }))
  ]

  pub os_remove-Ended :
      (path : Text) (d : Disk S)
      → Ended d.files (remove path d.files) d.read_faults d.observer (os_remove path d)
  os_remove-Ended path d = elim (Bool-cases (fails d)) [
    | inl e ↦
        unfold os_remove in
        rw e (refused other _ (record { files_eq = refl; reads_eq = refl; observer_eq = refl }))
    | inr e ↦ unfold os_remove in rw e (by_node (lookup path d.files))
  ]
    where
      by_node :
          (n : Option Node)
          → Ended d.files (remove path d.files) d.read_faults d.observer (removed path (tick d) n)
      by_node none =
          refused not_exist _ (record { files_eq = refl; reads_eq = refl; observer_eq = refl })
      by_node (some n) =
          succeeded _ (record { files_eq = refl; reads_eq = refl; observer_eq = refl })

  module _ (before : Text → Read → S → S) where
    -- The observer's state after it was told of a path.
    abbrev pub told : Text → Disk S → S
    told path d = (notify before path d).observer

    notify-Holds :
        (path : Text) (d : Disk S)
        → Holds d.files (tail_of d.read_faults) (told path d) (notify before path d)
    unfolding notify read_file
    notify-Holds path d = record { files_eq = refl; reads_eq = refl; observer_eq = refl }

    -- A write leaves the file with the new data and its old mode, or fails and leaves every file as
    -- it was, whichever of its steps fails; the observer is told first in both cases.
    pub write_file-Ended :
        (path bytes : Text) (d : Disk S)
        → Ended d.files
            (insert path (node_for path bytes d.files) d.files)
            (tail_of d.read_faults)
            (told path d)
            (write_file before path bytes d)
    unfolding write_file through_temp notify read_file
    write_file-Ended path bytes d = elim (Bool-cases (fails d)) [
      | inl e ↦
          rw e (refused other _ (record { files_eq = refl; reads_eq = refl; observer_eq = refl }))
      | inr e ↦ rw e (
          or_fail-Ended _ _ _ _ _ _
            (record { files_eq = refl; reads_eq = refl; observer_eq = refl })
            (λ d1 h1.
              or_fail-Ended _ _ _ _ _ _
                (record {
                  files_eq = h1.files_eq;
                  reads_eq = h1.reads_eq;
                  observer_eq = h1.observer_eq;
                })
                (λ d2 h2. or_fail-Ended _ _ _ _ _ _ h2 (λ d3 h3.
                  or_fail-Ended _ _ _ _ _ _ h3 (λ d4 h4. succeeded _ (record {
                    files_eq = ap (insert path (node_for path bytes d.files)) h4.files_eq;
                    reads_eq = h4.reads_eq;
                    observer_eq = h4.observer_eq;
                  }))))))
    ]

    pub remove_file-Ended :
        (path : Text) (d : Disk S)
        → Ended d.files
            (remove path d.files)
            (tail_of d.read_faults)
            (told path d)
            (remove_file before path d)
    unfolding remove_file notify read_file
    remove_file-Ended path d = os_remove-Ended path (notify before path d)

module _ {ℓ} {S : Type ℓ} where
  pub read_file-contents :
      (path : Text) (d : Disk S) (bytes : Text)
      → (read_file path d).0 ≡ contents bytes
      → data_at path d.files ≡ some bytes
  unfolding read_file
  read_file-contents path d bytes = by_node (head_or_false d.read_faults) (lookup path d.files)
    where
      by_node :
          (b : Bool) (n : Option Node)
          → (if b then unreadable else read_node n) ≡ contents bytes
          → data_in n ≡ some bytes
      by_node true n e = absurd cc
      by_node false none e = absurd cc
      by_node false (some n) e = cc
