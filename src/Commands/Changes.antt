-- ===== src/Commands/Changes.antt =====
-- Declaring and removing a command keep the registry as its file.
use mathlib.Core.Path.{subst}
use arno.Base.{
  ◌≡◌, ◌≢◌, refl, ap, sym, ◌∙◌, not, ◌&&◌, Option, none, some, Text, text_eq, text_eq_iff, ltb, leb,
  length, is_empty, trim_space, Dict, lookup, insert, remove, lookup-insert, lookup-remove,
  Bool-cases, inl, inr,
}
use arno.Commands.{
  Command, CommandError, validate_name, is_declared, declare_named, unless_refused, declare,
  after_removal, remove_found, remove_command, max_commands, max_run_length,
}
use arno.Disk.{Disk, Read}
use arno.Commands.Mirror.{
  SameCommands, ValidNames, IsCodec, Mirrors, Mirrors-moved, Saved, written, kept, save-Saved,
  after_save-Mirrors,
}

module _ {ℓ} {S : Type ℓ} (before : Text → Read → S → S) (marshal : Dict Command → Option Text)
    (unmarshal : Text → Option (Dict Command)) where
  -- Declaring a command, done or failed, leaves the registry as its file.
  pub declare-Mirrors :
      (name : Text) (command : Command) (commands : Dict Command) (d : Disk S)
      → IsCodec marshal unmarshal
      → Mirrors before marshal unmarshal commands d
      → let out = declare before marshal unmarshal name command commands d in
        Mirrors before marshal unmarshal out.1 out.2
  unfolding declare
  declare-Mirrors name command commands d codec h =
      by_name (trim_space name) (validate_name (trim_space name)) refl
    where
      valid-insert :
          (n : Text) (c : Command) → validate_name n ≡ none → ValidNames (insert n c commands)
      valid-insert n c e k there = elim (Bool-cases (text_eq n k)) [
        | inl q ↦ subst (λ z. validate_name z ≡ none) ((text_eq_iff n k).0 q) e
        | inr q ↦ h.valid k (subst (λ o. o ≢ none) (rw (lookup-insert, q) refl) there)
      ]

      by_name :
          (n : Text) (o : Option CommandError)
          → validate_name n ≡ o
          → let out =
              unless_refused before marshal unmarshal o commands d
                (declare_named before marshal unmarshal n command commands d) in
            Mirrors before marshal unmarshal out.1 out.2
      by_name n (some x) e = h
      by_name n none e = elim (Bool-cases (is_empty (trim_space command.run))) [
        | inl q ↦ rw q h
        | inr q ↦ rw q (elim (Bool-cases (ltb max_run_length (length (trim_space command.run)))) [
          | inl q1 ↦ rw q1 h
          | inr q1 ↦
              rw q1
                (elim (Bool-cases
                  (not (is_declared (lookup n commands)) && leb max_commands (length commands))) [
                    | inl q2 ↦ rw q2 h
                    | inr q2 ↦ rw q2 (
                        after_save-Mirrors before marshal unmarshal n _ commands d h _ (
                          save-Saved before marshal unmarshal _ d codec (valid-insert n _ e)
                            h.reads))
                  ])
        ])
      ]

  pub remove_command-Mirrors :
      (name : Text) (commands : Dict Command) (d : Disk S)
      → IsCodec marshal unmarshal
      → Mirrors before marshal unmarshal commands d
      → let out = remove_command before marshal unmarshal name commands d in
        Mirrors before marshal unmarshal out.1 out.2
  unfolding remove_command
  remove_command-Mirrors name commands d codec h =
      by_command (trim_space name) (lookup (trim_space name) commands) refl
    where
      valid-remove : (n : Text) → ValidNames (remove n commands)
      valid-remove n k there = elim (Bool-cases (text_eq n k)) [
        | inl q ↦ absurd (there (rw (lookup-remove, q) refl))
        | inr q ↦ h.valid k (subst (λ o. o ≢ none) (rw (lookup-remove, q) refl) there)
      ]

      by_save :
          (n : Text) (c : Command)
          → lookup n commands ≡ some c
          → (r : Option CommandError × Disk S)
          → Saved before marshal unmarshal (remove n commands) d.files r
          → let out = after_removal before marshal unmarshal n c (remove n commands) r in
            Mirrors before marshal unmarshal out.1 out.2
      by_save n c e _ (written d' h') = h'
      by_save n c e _ (kept x d' same_files reads) =
          Mirrors-moved before marshal unmarshal commands (insert n c (remove n commands)) d d'
            alike same_files reads h
        where
          alike : SameCommands commands (insert n c (remove n commands))
          alike k = elim (Bool-cases (text_eq n k)) [
            | inl q ↦
                rw (lookup-insert, q)
                  (ap (λ z. lookup z commands) (sym ((text_eq_iff n k).0 q)) ∙ e)
            | inr q ↦ rw (lookup-insert, q) (rw (lookup-remove, q) refl)
          ]

      by_command :
          (n : Text) (o : Option Command)
          → lookup n commands ≡ o
          → let out = remove_found before marshal unmarshal n o commands d in
            Mirrors before marshal unmarshal out.1 out.2
      by_command n none e = h
      by_command n (some c) e =
          by_save n c e _ (
            save-Saved before marshal unmarshal (remove n commands) d codec (valid-remove n)
              h.reads)
