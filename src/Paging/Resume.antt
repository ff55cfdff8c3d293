-- ===== src/Paging/Resume.antt =====
-- When a handle is answered.
use arno.Base.{
  ◌+◌, ◌≤◌, ◌≡◌, ◌↔◌, ◌⊎◌, inl, inr, refl, some, Text, codes, text_eq_iff, arith, Option-cases,
}
use arno.Decimal.{max_int}
use arno.Paging.Store.{Continuation, Store, put, get, ok, resume, admit}
use arno.Paging.Handles.{IsStore, get-put}

-- A handle is answered exactly when it stands in the store, it was given by the same tool, and the
-- workspace is still at the revision that it was cut at. A job's output alone is answered at any
-- revision.
pub resume_iff :
    (handle tool revision : Text) (c : Store) (entry : Continuation)
    → (resume handle tool revision c ≡ ok entry) ↔ (
        (get handle c ≡ some entry)
        × (entry.tool ≡ tool)
        × ((tool ≡ codes "job_output") ⊎ (revision ≡ entry.revision)))
resume_iff handle tool revision c entry = elim (Option-cases (get handle c)) [
  | inl e ↦ unfold resume in rw e (λ h. cc, λ h. cc (h.0))
  | inr (found, e) ↦ unfold resume in rw e (forward found, backward found)
]
  where
    Holds : Continuation → Type 0
    Holds found =
        (some found ≡ some entry)
        × (entry.tool ≡ tool)
        × ((tool ≡ codes "job_output") ⊎ (revision ≡ entry.revision))

    forward : (found : Continuation) → admit handle tool revision found ≡ ok entry → Holds found
    forward found h = ground (
      arith,
      text_eq_iff found.tool tool,
      text_eq_iff tool (codes "job_output"),
      text_eq_iff revision found.revision,
    )

    backward : (found : Continuation) → Holds found → admit handle tool revision found ≡ ok entry
    backward found h = ground (
      arith,
      text_eq_iff found.tool tool,
      text_eq_iff tool (codes "job_output"),
      text_eq_iff revision found.revision,
    )

-- The entry that was just put is what its handle resumes, for its tool at its revision.
pub resume-put :
    (entry : Continuation) (c : Store) (valid : IsStore c)
    → c.next + 1 ≤ max_int
    → resume (put entry c).0 entry.tool entry.revision (put entry c).1 ≡ ok entry
resume-put entry c valid room =
    (resume_iff (put entry c).0 entry.tool entry.revision (put entry c).1 entry).1
      (get-put entry c valid room, refl, inr refl)
