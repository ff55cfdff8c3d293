-- ===== src/Commands/Reachable.antt =====
-- The registries that a process can come to, by loading the file and changing the registry.
use mathlib.Core.Path.{subst}
use arno.Base.{
  ◌≡◌, ◌≢◌, refl, Bool, true, false, [], ◌∷◌, Option, none, some, Text, text_eq, text_eq_iff,
  if◌then◌else◌, Dict, lookup,
}
use arno.Commands.{
  Command, CommandError, loaded, rel_path, validate_name, or_rest, first_invalid, unless_invalid,
  decoded, load_read, load, declare, remove_command,
}
use arno.Commands.Changes.{declare-Mirrors, remove_command-Mirrors}
use arno.Commands.Mirror.{IsCodec, Mirrors, SameCommands, ValidNames, load-Mirrors}
use arno.Disk.{Disk, Read, contents, missing, unreadable, read_file, read_node}

ValidNames-first_invalid :
    (commands : Dict Command) → first_invalid commands ≡ none → ValidNames commands
unfolding first_invalid lookup
ValidNames-first_invalid [] e n there = absurd (there refl)
ValidNames-first_invalid ((name, c) ∷ commands) e n there =
    by_first (validate_name name) refl (λ e' later. ValidNames-first_invalid commands e' n later) e
  where
    by_here :
        (b : Bool)
        → text_eq name n ≡ b
        → validate_name name ≡ none
        → (lookup n commands ≢ none → validate_name n ≡ none)
        → (if b then some c else lookup n commands) ≢ none
        → validate_name n ≡ none
    by_here true q v later there = subst (λ z. validate_name z ≡ none) ((text_eq_iff name n).0 q) v
    by_here false q v later there = later there

    by_first :
        (o : Option CommandError)
        → validate_name name ≡ o
        → (first_invalid commands ≡ none → lookup n commands ≢ none → validate_name n ≡ none)
        → or_rest o (first_invalid commands) ≡ none
        → validate_name n ≡ none
    by_first (some x) v later e = absurd cc
    by_first none v later e = by_here (text_eq name n) refl v (later e) there

module _ {ℓ} {S : Type ℓ} (before : Text → Read → S → S) (marshal : Dict Command → Option Text)
    (unmarshal : Text → Option (Dict Command)) where
  -- A registry with the disk under it. Between the steps nothing else writes the file, and reads do
  -- not fail; any write may fail.
  pub data Reached : Dict Command → Disk S → Type ℓ where
    opened :
        (commands : Dict Command) (d : Disk S)
        → d.read_faults ≡ []
        → (load before marshal unmarshal d).0 ≡ loaded commands
        → Reached commands (load before marshal unmarshal d).1
    declaring :
        (name : Text) (command : Command) (commands : Dict Command) (d : Disk S)
        → Reached commands d
        → Reached
            (declare before marshal unmarshal name command commands d).1
            (declare before marshal unmarshal name command commands d).2
    removing :
        (name : Text) (commands : Dict Command) (d : Disk S)
        → Reached commands d
        → Reached
            (remove_command before marshal unmarshal name commands d).1
            (remove_command before marshal unmarshal name commands d).2

  opened-Mirrors :
      (commands : Dict Command) (d : Disk S)
      → d.read_faults ≡ []
      → (load before marshal unmarshal d).0 ≡ loaded commands
      → Mirrors before marshal unmarshal commands (load before marshal unmarshal d).1
  unfolding load read_file
  opened-Mirrors commands d reads e = record {
    reads = rw reads refl;
    valid = by_read (read_node (lookup rel_path d.files)) e';
    back = commands;
    file_eq = e';
    same = λ n. refl;
  }
    where
      e' :
          load_read before marshal unmarshal (read_node (lookup rel_path d.files)) ≡ loaded commands
      e' = rw reads at e

      by_decoded : (o : Option (Dict Command)) → decoded o ≡ loaded commands → ValidNames commands
      by_decoded none e = absurd cc
      by_decoded (some c) e = by_valid (first_invalid c) refl e
        where
          by_valid :
              (o : Option CommandError)
              → first_invalid c ≡ o
              → unless_invalid c o ≡ loaded commands
              → ValidNames commands
          by_valid (some x) v e = absurd cc
          by_valid none v e =
              let eq : c ≡ commands = cc in subst ValidNames eq (ValidNames-first_invalid c v)

      by_read :
          (r : Read) → load_read before marshal unmarshal r ≡ loaded commands → ValidNames commands
      by_read missing e =
          let eq : [] ≡ commands = cc in
          subst ValidNames eq (ValidNames-first_invalid [] (unfold first_invalid in refl))
      by_read unreadable e = absurd cc
      by_read (contents bytes) e = by_decoded (unmarshal bytes) e

  mirrored :
      (commands : Dict Command) (d : Disk S)
      → IsCodec marshal unmarshal
      → Reached commands d
      → Mirrors before marshal unmarshal commands d
  mirrored _ _ codec (opened commands d reads e) = opened-Mirrors commands d reads e
  mirrored _ _ codec (declaring name command commands d h) =
      declare-Mirrors before marshal unmarshal name command commands d codec
        (mirrored commands d codec h)
  mirrored _ _ codec (removing name commands d h) =
      remove_command-Mirrors before marshal unmarshal name commands d codec
        (mirrored commands d codec h)

  -- However a registry was come to, and whichever writes failed on the way, loading its file again
  -- gives a registry that answers every lookup alike; where an encoded registry is decoded to the
  -- same commands.
  pub load-SameCommands :
      (commands : Dict Command) (d : Disk S)
      → IsCodec marshal unmarshal
      → Reached commands d
      → (back : Dict Command) × ((load before marshal unmarshal d).0 ≡ loaded back)
        × SameCommands back commands
  load-SameCommands commands d codec h =
      let m = mirrored commands d codec h in
      (m.back, load-Mirrors before marshal unmarshal commands d m, m.same)
