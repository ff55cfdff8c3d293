-- ===== src/Commands/Mirror.antt =====
-- A registry and its file hold the same commands, through every change, done or failed.
use mathlib.Core.Path.{subst}
use arno.Base.{
  ◌≡◌, ◌≢◌, refl, ap, sym, ◌∙◌, Bool, true, false, [], ◌∷◌, ◌++◌, Option, none, some, Text, newline,
  text_eq, text_eq_iff, text_eq_self, if◌then◌else◌, Dict, lookup, insert, remove, lookup-insert,
  lookup-remove, Bool-cases, inl, inr,
}
use arno.Commands.{
  Command, CommandError, Loaded, loaded, load_failed, rel_path, validate_name, first_invalid,
  is_declared, failed_as, load_read, load, write_encoded, save, reloaded, after_save,
}
use arno.Disk.{Node, Disk, Read, OsError, read_file, read_node, write_file, fails, tick, tail_of}
use arno.Disk.Atomic.{Ended, succeeded, node_for, told, write_file-Ended}

-- Two registries that answer every lookup alike.
abbrev pub SameCommands : Dict Command → Dict Command → Type 0
SameCommands xs ys = (n : Text) → lookup n xs ≡ lookup n ys

-- Every declared name is one that may be declared.
abbrev pub ValidNames : Dict Command → Type 0
ValidNames commands = (n : Text) → lookup n commands ≢ none → validate_name n ≡ none

-- An encoding is decoded, with a newline behind it, to the same commands.
abbrev pub IsCodec : (Dict Command → Option Text) → (Text → Option (Dict Command)) → Type 0
IsCodec marshal unmarshal =
    (commands : Dict Command) (bytes : Text)
    → marshal commands ≡ some bytes
    → (back : Dict Command) × (unmarshal (bytes ++ newline ∷ []) ≡ some back)
      × SameCommands back commands

first_invalid-ValidNames :
    (commands : Dict Command) → ValidNames commands → first_invalid commands ≡ none
unfolding first_invalid
first_invalid-ValidNames [] h = refl
first_invalid-ValidNames ((name, c) ∷ commands) h =
    rw (h name (unfold lookup in rw (text_eq_self name) (λ e. absurd cc)))
      (first_invalid-ValidNames commands later)
  where
    not_none : (b : Bool) (o : Option Command) → o ≢ none → (if b then some c else o) ≢ none
    not_none true o h e = absurd cc
    not_none false o h e = h e

    later : ValidNames commands
    later n there = h n (unfold lookup in not_none (text_eq name n) (lookup n commands) there)

module _ {ℓ} {S : Type ℓ} (before : Text → Read → S → S) (marshal : Dict Command → Option Text)
    (unmarshal : Text → Option (Dict Command)) where
  -- Loading the file gives the commands of the registry.
  pub record Mirrors (commands : Dict Command) (d : Disk S) : Type 0 where
    pub reads : d.read_faults ≡ []
    pub valid : ValidNames commands
    pub back : Dict Command
    pub file_eq :
        load_read before marshal unmarshal (read_node (lookup rel_path d.files)) ≡ loaded back
    pub same : SameCommands back commands

  -- A save that has written the commands, or has failed and left the files.
  pub data Saved (commands : Dict Command) (start : Dict Node)
      : Option CommandError × Disk S → Type ℓ where
    written : (d : Disk S) → Mirrors commands d → Saved commands start (none, d)
    kept :
        (e : CommandError) (d : Disk S)
        → d.files ≡ start
        → d.read_faults ≡ []
        → Saved commands start (some e, d)

  pub save-Saved :
      (commands : Dict Command) (d : Disk S)
      → IsCodec marshal unmarshal
      → ValidNames commands
      → d.read_faults ≡ []
      → Saved commands d.files (save before marshal unmarshal commands d)
  unfolding save
  save-Saved commands d codec valid reads = elim (Bool-cases (fails d)) [
    | inl e ↦ rw e (kept _ _ refl reads)
    | inr e ↦ rw e (by_encoding (marshal commands) refl)
  ]
    where
      by_write :
          (bytes : Text)
          → marshal commands ≡ some bytes
          → (r : Option OsError × Disk S)
          → Ended d.files
              (insert rel_path (node_for rel_path (bytes ++ newline ∷ []) d.files) d.files)
              (tail_of d.read_faults)
              (told before rel_path (tick d))
              r
          → Saved commands d.files (failed_as r.0, r.1)
      by_write bytes e _ (Ended.refused x d' h) = kept _ d' h.files_eq (h.reads_eq ∙ rw reads refl)
      by_write bytes e _ (succeeded d' h) =
          let (back, e_back, same) = codec commands bytes e in
          written d' (record {
            reads = h.reads_eq ∙ rw reads refl;
            valid = valid;
            back = back;
            file_eq =
                rw (h.files_eq, lookup-insert, text_eq_self rel_path)
                  (rw
                    (
                      e_back,
                      first_invalid-ValidNames back
                          (λ n there. valid n (subst (λ o. o ≢ none) (same n) there)),
                    )
                    refl);
            same = same;
          })

      by_encoding :
          (o : Option Text)
          → marshal commands ≡ o
          → Saved commands d.files (write_encoded before marshal unmarshal o (tick d))
      by_encoding none e = kept _ _ refl reads
      by_encoding (some bytes) e =
          by_write bytes e (write_file before rel_path (bytes ++ newline ∷ []) (tick d))
            (write_file-Ended before rel_path (bytes ++ newline ∷ []) (tick d))

  pub Mirrors-moved :
      (xs ys : Dict Command) (d d' : Disk S)
      → SameCommands xs ys
      → d'.files ≡ d.files
      → d'.read_faults ≡ []
      → Mirrors xs d
      → Mirrors ys d'
  Mirrors-moved xs ys d d' alike e reads h = record {
    reads = reads;
    valid = λ n there. h.valid n (subst (λ o. o ≢ none) (sym (alike n)) there);
    back = h.back;
    file_eq = rw e h.file_eq;
    same = λ n. h.same n ∙ alike n;
  }

  -- Loading a mirrored file gives its commands.
  pub load-Mirrors :
      (commands : Dict Command) (d : Disk S)
      → (h : Mirrors commands d) → (load before marshal unmarshal d).0 ≡ loaded h.back
  unfolding load read_file
  load-Mirrors commands d h = let e = h.reads in rw e h.file_eq

  pub after_save-Mirrors :
      (name : Text) (c : Command) (commands : Dict Command) (d : Disk S)
      → Mirrors commands d
      → (r : Option CommandError × Disk S) → Saved (insert name c commands) d.files r
      → let out =
          after_save before marshal unmarshal
            (is_declared (lookup name commands))
            name
            (insert name c commands)
            r in
        Mirrors out.1 out.2
  after_save-Mirrors name c commands d h _ (written d' h') = h'
  after_save-Mirrors name c commands d h _ (kept e d' e' reads) = by_old (lookup name commands) refl
    where
      by_old :
          (o : Option Command)
          → lookup name commands ≡ o
          → let out =
              after_save before marshal unmarshal
                (is_declared o)
                name
                (insert name c commands)
                (some e, d') in
            Mirrors out.1 out.2
      by_old none old =
          Mirrors-moved commands (remove name (insert name c commands)) d d' alike e' reads h
        where
          alike : SameCommands commands (remove name (insert name c commands))
          alike n = elim (Bool-cases (text_eq name n)) [
            | inl q ↦
                rw (lookup-remove, q)
                  (ap (λ k. lookup k commands) (sym ((text_eq_iff name n).0 q)) ∙ old)
            | inr q ↦ rw (lookup-remove, q) (rw (lookup-insert, q) refl)
          ]
      by_old (some c') old =
          let h' : Mirrors commands d' =
            Mirrors-moved commands commands d d' (λ n. refl) e' reads h in
          by_load h' (load before marshal unmarshal d').0 (load before marshal unmarshal d').1
            (load-Mirrors commands d' h') (unfold load read_file in refl)
            (unfold load read_file in rw reads refl)
        where
          by_load :
              (h' : Mirrors commands d') (l : Loaded) (d2 : Disk S)
              → l ≡ loaded h'.back
              → d2.files ≡ d'.files
              → d2.read_faults ≡ []
              → let out = reloaded before marshal unmarshal e (insert name c commands) (l, d2) in
                Mirrors out.1 out.2
          by_load h' (load_failed x) d2 el ef er = absurd cc
          by_load h' (loaded fresh) d2 el ef er =
              let eq : fresh ≡ h'.back = cc in
              Mirrors-moved commands fresh d' d2 (λ n. sym (h'.same n) ∙ ap (lookup n) (sym eq)) ef
                er h'
