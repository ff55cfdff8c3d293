-- ===== src/Batches/Order.antt =====
-- A batch answers every question in the order asked, or says which one failed.
use mathlib.Core.Path.{subst}
use arno.Base.{
  ℕ, ◌≡◌, ◌≤◌, ◌<◌, refl, sym, ap, List, [], ◌∷◌, ◌++◌, append_assoc, append-nil, Text, length, ltb,
  ltb→lt, ltb→le, Bool-cases, inl, inr, arith,
}
use arno.Batches.{
  Answered, answer, failed, BatchAnswer, answers, no_questions, too_many, question_failed,
  after_answer, ask_all, bounded_batch, max_find_queries, max_grep_queries, trimmed_queries,
  non_blank_queries, find_batch, grep_batch,
}

module _ {ℓ} {R S : Type ℓ} (ask : Text → S → Answered R × S) where
  -- The questions were asked one after the other, each in the state that the one before left, and
  -- these are their answers.
  pub data Asked : List Text → S → List R → S → Type ℓ where
    none_left : (s : S) → Asked [] s [] s
    and_then :
        (question : Text) (questions : List Text) (r : R) (responses : List R) (s s' end : S)
        → ask question s ≡ (answer r, s')
        → Asked questions s' responses end
        → Asked (question ∷ questions) s (r ∷ responses) end

  -- How a batch ends. `all`: every question has its answer. `stopped`: those in front of the one
  -- that failed were answered. `none_asked` and `beyond`: nothing was asked.
  pub data Batched (max : ℕ) (questions : List Text) (start : S) : BatchAnswer R × S → Type ℓ where
    all :
        (responses : List R) (end : S)
        → Asked questions start responses end
        → 1 ≤ length questions
        → length questions ≤ max
        → Batched max questions start (answers responses, end)
    stopped :
        (front back : List Text) (question e : Text) (responses : List R) (s end : S)
        → questions ≡ front ++ question ∷ back
        → Asked front start responses s
        → ask question s ≡ (failed e, end)
        → Batched max questions start (question_failed question e, end)
    none_asked : questions ≡ [] → Batched max questions start (no_questions, start)
    beyond :
        max < length questions → Batched max questions start (too_many (length questions), start)

  data Looped (before : List R) (questions : List Text) (start : S)
      : BatchAnswer R × S → Type ℓ where
    through :
        (responses : List R) (end : S)
        → Asked questions start responses end
        → Looped before questions start (answers (before ++ responses), end)
    halted :
        (front back : List Text) (question e : Text) (responses : List R) (s end : S)
        → questions ≡ front ++ question ∷ back
        → Asked front start responses s
        → ask question s ≡ (failed e, end)
        → Looped before questions start (question_failed question e, end)

  ask_all-Looped :
      (before : List R) (questions : List Text) (s : S)
      → Looped before questions s (ask_all ask before questions s)
  unfolding ask_all
  ask_all-Looped before [] s =
      subst (λ l. Looped before [] s (answers l, s)) (append-nil before)
        (through [] s (none_left s))
  ask_all-Looped before (question ∷ questions) s =
      by_answer (ask question s) refl (λ r s'. ask_all-Looped (before ++ r ∷ []) questions s')
    where
      by_rest :
          (r : R) (s' : S)
          → ask question s ≡ (answer r, s')
          → (out : BatchAnswer R × S) → Looped (before ++ r ∷ []) questions s' out
          → Looped before (question ∷ questions) s out
      by_rest r s' e _ (through responses end h) =
          subst (λ l. Looped before (question ∷ questions) s (answers l, end))
            (sym (append_assoc before (r ∷ []) responses))
            (through (r ∷ responses) end (and_then question questions r responses s s' end e h))
      by_rest r s' e _ (halted front back q x responses s'' end eq h f) =
          halted (question ∷ front) back q x (r ∷ responses) s'' end (ap (λ l. question ∷ l) eq)
            (and_then question front r responses s s' s'' e h) f

      by_answer :
          (out : Answered R × S)
          → ask question s ≡ out
          → ((r : R) (s' : S)
              → Looped
                  (before ++ r ∷ [])
                  questions
                  s'
                  (ask_all ask (before ++ r ∷ []) questions s'))
          → Looped before
              (question ∷ questions)
              s
              (after_answer ask question before (λ rs s. ask_all ask rs questions s) out)
      by_answer (failed e, s') eq go = halted [] questions question e [] s s' refl (none_left s) eq
      by_answer (answer r, s') eq go = by_rest r s' eq _ (go r s')

  bounded_batch-Batched :
      (max : ℕ) (questions : List Text) (s : S)
      → Batched max questions s (bounded_batch ask max questions s)
  bounded_batch-Batched max [] s = none_asked refl
  bounded_batch-Batched max (question ∷ questions) s =
      elim (Bool-cases (ltb max (length (question ∷ questions)))) [
        | inl e ↦ rw e (beyond (ltb→lt max (length (question ∷ questions)) e))
        | inr e ↦ rw e (
            by_loop (ltb→le max (length (question ∷ questions)) e) _
              (ask_all-Looped [] (question ∷ questions) s))
      ]
    where
      by_loop :
          length (question ∷ questions) ≤ max
          → (out : BatchAnswer R × S) → Looped [] (question ∷ questions) s out
          → Batched max (question ∷ questions) s out
      by_loop le _ (through responses end h) = all responses end h (omega arith) le
      by_loop le _ (halted front back q x responses s' end eq h f) =
          stopped front back q x responses s' end eq h f

  -- A batch of finds or of greps answers each of one to ten questions that are not blank in the
  -- order asked, each in the state that the one before left, or stops at the first that fails and
  -- names it, or asks nothing where there is none or there are too many.
  pub batches-Batched :
      (queries : List Text) (s : S)
      → Batched max_find_queries (trimmed_queries queries) s (find_batch ask queries s)
        × Batched max_grep_queries (non_blank_queries queries) s (grep_batch ask queries s)
  unfolding find_batch grep_batch
  batches-Batched queries s = (
    bounded_batch-Batched max_find_queries (trimmed_queries queries) s,
    bounded_batch-Batched max_grep_queries (non_blank_queries queries) s,
  )
