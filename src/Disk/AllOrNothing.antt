-- ===== src/Disk/AllOrNothing.antt =====
-- A change to several files lands in all of them or in none.
use arno.Base.{
  ◌≡◌, refl, sym, ap, Bool, false, ◌||◌, List, [], ◌∷◌, ◌++◌, Option, none, some, Text, text_eq,
  text_eq_iff, if◌then◌else◌, Dict, lookup, insert, remove, lookup-insert, lookup-remove,
  Bool-cases, inl, inr, arith,
}
use mathlib.Core.Path.{subst}
use arno.Disk.{
  Node, OsError, not_exist, other, Read, Disk, Change, fails, tick, read_file, removed, os_remove,
  notify, remove_file, write_file, unless_missing, apply_change, restore,
}
use arno.Disk.Atomic.{
  data_in, data_at, asked, node_for, Ended, succeeded, refused, write_file-Ended,
}

-- What a path holds when the changes were made one after the other.
abbrev pub final : Text → List Change → Option Text → Option Text
final path [] held = held
final path (c ∷ cs) held = final path cs (if text_eq c.path path then asked c else held)

abbrev pub changes_of : List (Change × Option Text) → List Change
changes_of [] = []
changes_of ((c, old) ∷ rest) = c ∷ changes_of rest

abbrev pub mentions : Text → List (Change × Option Text) → Bool
mentions path [] = false
mentions path ((c, old) ∷ rest) = text_eq c.path path || mentions path rest

pub final_unmentioned :
    (path : Text) (held : Option Text) (w : List (Change × Option Text))
    → mentions path w ≡ false
    → final path (changes_of w) held ≡ held
final_unmentioned path held [] h = refl
final_unmentioned path held ((c, old) ∷ w) h =
    let apart : text_eq c.path path ≡ false = ground arith in
    let later : mentions path w ≡ false = ground arith in
    subst (λ b. final path (changes_of w) (if b then asked c else held) ≡ held) (sym apart)
      (final_unmentioned path held w later)

pub final-append :
    (path : Text) (held : Option Text) (w : List (Change × Option Text)) (c : Change)
    (old : Option Text)
    → final path (changes_of (w ++ (c, old) ∷ [])) held
      ≡ (if text_eq c.path path then asked c else final path (changes_of w) held)
final-append path held [] c old = refl
final-append path held ((b, o) ∷ w) c old =
    final-append path (if text_eq b.path path then asked b else held) w c old

pub at_insert :
    (path p bytes : Text) (files : Dict Node)
    → data_at p (insert path (node_for path bytes files) files)
      ≡ (if text_eq path p then some bytes else data_at p files)
at_insert path p bytes files = elim (Bool-cases (text_eq path p)) [
  | inl e ↦ rw (lookup-insert, e) refl
  | inr e ↦ rw (lookup-insert, e) refl
]

pub at_remove :
    (path p : Text) (files : Dict Node)
    → data_at p (remove path files) ≡ (if text_eq path p then none else data_at p files)
at_remove path p files = elim (Bool-cases (text_eq path p)) [
  | inl e ↦ rw (lookup-remove, e) refl
  | inr e ↦ rw (lookup-remove, e) refl
]

module _ {ℓ} {S : Type ℓ} where
  -- An operation that was to put a value at a path has done so, or has failed and changed nothing.
  pub data Put (path : Text) (value : Option Text) (start : Dict Node)
      : Option OsError × Disk S → Type ℓ where
    did :
        (d : Disk S)
        → ((p : Text) → data_at p d.files ≡ (if text_eq path p then value else data_at p start))
        → Put path value start (none, d)
    did_not : (e : OsError) (d : Disk S) → d.files ≡ start → Put path value start (some e, d)

  Ended-Put :
      (path : Text) (value : Option Text) (start goal : Dict Node) (reads : List Bool) (o : S)
      → ((p : Text) → data_at p goal ≡ (if text_eq path p then value else data_at p start))
      → (r : Option OsError × Disk S) → Ended start goal reads o r
      → Put path value start r
  Ended-Put path value start goal reads o at_goal r (succeeded d h) =
      did d (λ p. rw h.files_eq (at_goal p))
  Ended-Put path value start goal reads o at_goal r (refused e d h) = did_not e d h.files_eq

  -- A removal, where a path that holds nothing is done or is refused.
  gone_already :
      (path : Text) (d : Disk S)
      → lookup path d.files ≡ none
      → (p : Text) → data_at p d.files ≡ (if text_eq path p then none else data_at p d.files)
  gone_already path d e p = elim (Bool-cases (text_eq path p)) [
    | inr ne ↦ rw ne
    | inl eq ↦
        rw eq (subst (λ q. data_at q d.files ≡ none) ((text_eq_iff path p).0 eq) (ap data_in e))
  ]

  remove-Put :
      (path : Text) (d : Disk S)
      → Put path none d.files (os_remove path d)
        × Put path none d.files (unless_missing (os_remove path d).0, (os_remove path d).1)
  remove-Put path d = elim (Bool-cases (fails d)) [
    | inl e ↦ unfold os_remove in rw e (did_not other (tick d) refl, did_not other (tick d) refl)
    | inr e ↦ unfold os_remove in rw e (by_node (lookup path d.files) refl)
  ]
    where
      by_node :
          (n : Option Node)
          → lookup path d.files ≡ n
          → Put path none d.files (removed path (tick d) n)
            × Put path none d.files
                (unless_missing (removed path (tick d) n).0, (removed path (tick d) n).1)
      by_node none e = (did_not not_exist (tick d) refl, did (tick d) (gone_already path d e))
      by_node (some n) e =
          (did _ (λ p. at_remove path p d.files), did _ (λ p. at_remove path p d.files))

  module _ (before : Text → Read → S → S) where
    pub write-Put :
        (path bytes : Text) (d : Disk S)
        → Put path (some bytes) d.files (write_file before path bytes d)
    write-Put path bytes d =
        Ended-Put path (some bytes) d.files _ _ _ (λ p. at_insert path p bytes d.files) _
          (write_file-Ended before path bytes d)

    pub apply_change-Put :
        (c : Change) (d : Disk S) → Put c.path (asked c) d.files (apply_change before c d)
    unfolding apply_change remove_file notify read_file
    apply_change-Put c d = elim (Bool-cases c.removes) [
      | inl e ↦ rw e (remove-Put c.path (notify before c.path d)).1
      | inr e ↦ rw e (write-Put c.path c.data_of d)
    ]

    pub restore-Put :
        (path : Text) (old : Option Text) (d : Disk S)
        → Put path old d.files (restore before path old d)
    unfolding restore
    restore-Put path none d = (remove-Put path d).0
    restore-Put path (some bytes) d = write-Put path bytes d
