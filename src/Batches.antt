-- ===== src/Batches.antt =====
-- internal/transport/internalapi/batch.go and internal/transport/internalapi/digest.go: several
-- questions in one call, and the digest that an edit expects. The answer to one question is an
-- argument, which may change the server's state; so is the digest of a text.
pub mod Digest
pub mod Tests
pub mod Order
use arno.Base.{
  ℕ, ◌+◌, Bool, true, false, not, ◌||◌, List, [], ◌∷◌, ◌++◌, Option, none, some, Text, text_eq, ltb,
  length, is_empty, if◌then◌else◌, trim_space,
}
use arno.Disk.{Disk, Read, contents, missing, unreadable, read_file}

abbrev pub max_find_queries : ℕ
max_find_queries = 10

abbrev pub max_grep_queries : ℕ
max_grep_queries = 10

-- The names that are not blank, without the blanks around them.
unfoldable pub trimmed_queries : List Text → List Text
trimmed_queries [] = []
trimmed_queries (query ∷ queries) =
    let rest = trimmed_queries queries in
    if is_empty (trim_space query) then rest else trim_space query ∷ rest

-- The patterns that are not blank, as they are.
unfoldable pub non_blank_queries : List Text → List Text
non_blank_queries [] = []
non_blank_queries (query ∷ queries) =
    let rest = non_blank_queries queries in
    if is_empty (trim_space query) then rest else query ∷ rest

-- What one question is answered.
pub data Answered {ℓ} (R : Type ℓ) : Type ℓ where
  answer : R → Answered R
  failed : Text → Answered R

-- What a batch is answered; `question_failed` names the question and its error.
pub data BatchAnswer {ℓ} (R : Type ℓ) : Type ℓ where
  answers : List R → BatchAnswer R
  no_questions : BatchAnswer R
  too_many : ℕ → BatchAnswer R
  question_failed : (question : Text) → (error : Text) → BatchAnswer R

module _ {ℓ} {R S : Type ℓ} (ask : Text → S → Answered R × S) where
  abbrev pub after_answer :
      Text → List R → (List R → S → BatchAnswer R × S) → Answered R × S → BatchAnswer R × S
  after_answer question responses next (failed e, s) = (question_failed question e, s)
  after_answer question responses next (answer r, s) = next (responses ++ r ∷ []) s

  -- The loop over the questions; `responses` are the answers before.
  unfoldable pub ask_all : List R → List Text → S → BatchAnswer R × S
  ask_all responses [] s = (answers responses, s)
  ask_all responses (question ∷ questions) s =
      after_answer question responses (λ rs s. ask_all rs questions s) (ask question s)

  abbrev pub bounded_batch : ℕ → List Text → S → BatchAnswer R × S
  bounded_batch max questions s =
      if is_empty questions
      then (no_questions, s)
      else if ltb max (length questions)
      then (too_many (length questions), s)
      else ask_all [] questions s

  unfoldable pub find_batch : List Text → S → BatchAnswer R × S
  find_batch queries s = bounded_batch max_find_queries (trimmed_queries queries) s

  unfoldable pub grep_batch : List Text → S → BatchAnswer R × S
  grep_batch queries s = bounded_batch max_grep_queries (non_blank_queries queries) s

pub data DigestError : Type 0 where
  outside : Text → DigestError
  gone : Text → DigestError
  unreadable_now : Text → DigestError
  changed_since : (path : Text) → (expected : Text) → (current : Text) → DigestError

abbrev pub compared : Text → Text → Text → Option DigestError
compared path expected current =
    if text_eq current expected then none else some (changed_since path expected current)

module _ {ℓ} {S : Type ℓ} (resolves : Text → Bool) (digest : Text → Text) where
  abbrev pub check_read : Text → Text → Read × Disk S → Option DigestError × Disk S
  check_read path expected (missing, d) = (some (gone path), d)
  check_read path expected (unreadable, d) = (some (unreadable_now path), d)
  check_read path expected (contents bytes, d) = (compared path expected (digest bytes), d)

  unfoldable pub check_digest : Text → Text → Disk S → Option DigestError × Disk S
  check_digest path expected d =
      let expected = trim_space expected in
      if is_empty expected
      then (none, d)
      else if resolves path
      then check_read path expected (read_file path d)
      else (some (outside path), d)

  abbrev pub digest_of_read : Read × Disk S → Text × Disk S
  digest_of_read (contents bytes, d) = (digest bytes, d)
  digest_of_read (_, d) = ([], d)

  unfoldable pub file_digest : Text → Disk S → Text × Disk S
  file_digest path d = if resolves path then digest_of_read (read_file path d) else ([], d)
