-- ===== src/Commands/Tests.antt =====
-- The properties of the registry at concrete inputs.
use mathlib.Core.Path.{subst}
use arno.Base.{
  ℕ, ◌+◌, ◌≡◌, refl, ap₂, sym, Bool, true, false, ◌&&◌, [], ◌∷◌, ◌++◌, Option, none, some, Text,
  codes, newline, text_eq, text_eq_iff, if◌then◌else◌, Dict, lookup, arith,
}
use arno.Commands.{Command, loaded, load, declare}
use arno.Commands.Mirror.{IsCodec, SameCommands}
use arno.Commands.Reachable.{opened, declaring, load-SameCommands}
use arno.Disk.{Disk, Read, read_file}

abbrev vet : Command
vet = record { run = codes "go vet"; description = []; kind = codes "lint" }

-- An encoding of the empty registry and of the one that declares `vet` alone.
abbrev is_vet : Text → Command → Bool
is_vet n c =
    text_eq n (codes "vet")
    && (text_eq c.run (codes "go vet")
        && (text_eq c.description [] && text_eq c.kind (codes "lint")))

abbrev marshal : Dict Command → Option Text
marshal [] = some (codes "{}")
marshal ((n, c) ∷ []) = if is_vet n c then some (codes "{vet}") else none
marshal ((n, c) ∷ e ∷ commands) = none

abbrev unmarshal : Text → Option (Dict Command)
unmarshal bytes =
    if text_eq bytes (codes "{}\n")
    then some []
    else if text_eq bytes (codes "{vet}\n")
    then some ((codes "vet", vet) ∷ [])
    else none

marshal-IsCodec : IsCodec marshal unmarshal
marshal-IsCodec [] bytes e = (
  [],
  subst (λ b. unmarshal (b ++ newline ∷ []) ≡ some []) both (unfold text_eq in refl),
  λ n. refl,
)
  where
    both : codes "{}" ≡ bytes
    both = cc
marshal-IsCodec ((n, c) ∷ []) bytes e = by_test (is_vet n c) refl e
  where
    is_the_vet : is_vet n c ≡ true → (n ≡ codes "vet") × (c ≡ vet)
    is_the_vet e =
        let e_name : text_eq n (codes "vet") ≡ true = ground arith in
        let e_run : text_eq c.run (codes "go vet") ≡ true = ground arith in
        let e_description : text_eq c.description [] ≡ true = ground arith in
        let e_kind : text_eq c.kind (codes "lint") ≡ true = ground arith in
        let run_eq : c.run ≡ codes "go vet" = (text_eq_iff _ _).0 e_run in
        let description_eq : c.description ≡ [] = (text_eq_iff _ _).0 e_description in
        let kind_eq : c.kind ≡ codes "lint" = (text_eq_iff _ _).0 e_kind in
        (
          (text_eq_iff _ _).0 e_name,
          λ i. record { run = run_eq i; description = description_eq i; kind = kind_eq i },
        )

    by_test :
        (b : Bool)
        → is_vet n c ≡ b
        → (if b then some (codes "{vet}") else none) ≡ some bytes
        → (back : Dict Command) × (unmarshal (bytes ++ newline ∷ []) ≡ some back)
          × SameCommands back ((n, c) ∷ [])
    by_test false t e = absurd cc
    by_test true t e =
        let both : codes "{vet}" ≡ bytes = cc in
        let (name_eq, command_eq) = is_the_vet t in
        (
          (codes "vet", vet) ∷ [],
          subst (λ b. unmarshal (b ++ newline ∷ []) ≡ some ((codes "vet", vet) ∷ [])) both
              (unfold text_eq in refl),
          λ k. ap₂ (λ m d. lookup k ((m, d) ∷ [])) (sym name_eq) (sym command_eq),
        )
marshal-IsCodec ((n, c) ∷ x ∷ commands) bytes e = absurd cc

abbrev disk : Disk ℕ
disk = record { files = []; temp = none; faults = []; read_faults = []; observer = 0 }

abbrev count_writes : Text → Read → ℕ → ℕ
count_writes path r n = n + 1

abbrev start : Disk ℕ
start = (load count_writes marshal unmarshal disk).1

load-SameCommands_example :
    let out = declare count_writes marshal unmarshal (codes "vet") vet [] start in
    (back : Dict Command) × ((load count_writes marshal unmarshal out.2).0 ≡ loaded back)
    × SameCommands back out.1
unfolding load read_file lookup
load-SameCommands_example =
    load-SameCommands count_writes marshal unmarshal
      (declare count_writes marshal unmarshal (codes "vet") vet [] start).1
      (declare count_writes marshal unmarshal (codes "vet") vet [] start).2 marshal-IsCodec
      (declaring (codes "vet") vet [] start (opened [] disk refl refl))
