-- ===== src/Batches/Tests.antt =====
-- The properties of the batches at concrete inputs.
use arno.Base.{
  ℕ, ◌+◌, [], ◌∷◌, Text, codes, text_eq, if◌then◌else◌, ◌≡◌, ◌↔◌, ◌⊎◌, refl, true, none, some,
  is_empty, trim_space,
}
use arno.Batches.Digest.{check_digest-none_iff}
use arno.Disk.{Disk}
use arno.Disk.Atomic.{data_at}
use arno.Batches.{
  check_digest, Answered, answer, failed, max_find_queries, max_grep_queries, trimmed_queries,
  non_blank_queries, find_batch, grep_batch,
}
use arno.Batches.Order.{Batched, batches-Batched}

-- Answers a question with how many came before it; one name fails.
abbrev ask : Text → ℕ → Answered ℕ × ℕ
ask question n =
    if text_eq question (codes "broken") then (failed (codes "no"), n) else (answer n, n + 1)

batches-Batched_example :
    Batched ask max_find_queries
      (trimmed_queries (codes "a" ∷ codes " " ∷ codes "broken" ∷ []))
      0
      (find_batch ask (codes "a" ∷ codes " " ∷ codes "broken" ∷ []) 0)
    × Batched ask max_grep_queries
        (non_blank_queries (codes "a" ∷ codes " " ∷ codes "broken" ∷ []))
        0
        (grep_batch ask (codes "a" ∷ codes " " ∷ codes "broken" ∷ []) 0)
batches-Batched_example = batches-Batched ask (codes "a" ∷ codes " " ∷ codes "broken" ∷ []) 0

abbrev disk : Disk ℕ
disk = record {
  files = (codes "a.go", record { data_of = codes "package a"; mode = 420 }) ∷ [];
  temp = none;
  faults = [];
  read_faults = [];
  observer = 0;
}

check_digest-none_iff_example :
    ((check_digest (λ _. true) (λ bytes. bytes) (codes "a.go") (codes "package a") disk).0 ≡ none)
    ↔ ((is_empty (trim_space (codes "package a")) ≡ true)
        ⊎ ((true ≡ true)
            × (bytes : Text) × (data_at (codes "a.go") disk.files ≡ some bytes)
            × (bytes ≡ trim_space (codes "package a"))))
check_digest-none_iff_example =
    check_digest-none_iff (λ _. true) (λ bytes. bytes) (codes "a.go") (codes "package a") disk refl
