-- ===== src/Workspace/Restore.antt =====
-- A revert puts back what every path held when the checkpoint was taken.
use mathlib.Core.Path.{subst}
use arno.Base.{
  ◌≡◌, refl, sym, ap, ◌∙◌, Bool, true, false, not, ◌||◌, List, [], ◌∷◌, ◌++◌, Option, none, some,
  Text, text_eq, text_eq_iff, if◌then◌else◌, Dict, lookup, Bool-cases, Option-cases, inl, inr,
  arith, All, All-append, All-map, text_eq_self, Distinct,
}
use arno.Base.Sort.{has, has-sort_by, All-sort_by}
use arno.Disk.{Disk, Change}
use arno.Disk.Atomic.{data_at, asked}
use arno.Disk.AllOrNothing.{final}
use arno.Workspace.{Manager, CheckpointSnapshot, PriorState}
use arno.Workspace.Checkpoints.{is_some, file_changes, prior_changes, revert_changes, path_of}
use arno.Workspace.Tracking.{prior_value, Kept}

final_uniform :
    (v : Text → Option Text) (p : Text) (cs : List Change) (held : Option Text)
    → All (λ c. asked c ≡ v c.path) cs
    → final p cs held ≡ (if has path_of p cs then v p else held)
final_uniform v p [] held h = refl
final_uniform v p (c ∷ cs) held (hc, h) =
    final_uniform v p cs (if text_eq c.path p then asked c else held) h
    ∙ joined (text_eq c.path p) (has path_of p cs) refl
  where
    joined :
        (here later : Bool)
        → text_eq c.path p ≡ here
        → (if later then v p else if here then asked c else held)
          ≡ (if here || later then v p else held)
    joined true true e = refl
    joined true false e = hc ∙ ap v ((text_eq_iff c.path p).0 e)
    joined false true e = refl
    joined false false e = refl

has-append :
    (p : Text) (xs ys : List Change)
    → has path_of p (xs ++ ys) ≡ (has path_of p xs || has path_of p ys)
has-append p [] ys = refl
has-append p (x ∷ xs) ys = ground (arith, has-append p xs ys)

has-file_changes :
    (p : Text) (files : Dict Text) → has path_of p (file_changes files) ≡ is_some (lookup p files)
unfolding file_changes lookup
has-file_changes p [] = refl
has-file_changes p ((k, bytes) ∷ files) = ground (arith, has-file_changes p files)

lookup-cons :
    {V : Type 0} (p k : Text) (v : V) (m : Dict V)
    → lookup p ((k, v) ∷ m) ≡ (if text_eq k p then some v else lookup p m)
unfolding lookup
lookup-cons p k v m = refl

prior-cons :
    (files : Dict Text) (k : Text) (st : PriorState) (prior : Dict PriorState)
    → prior_changes files ((k, st) ∷ prior) ≡ (
        if is_some (lookup k files)
        then prior_changes files prior
        else record { path = k; data_of = st.data_of; removes = not st.existed }
          ∷ prior_changes files prior)
unfolding prior_changes
prior-cons files k st prior = refl

has-prior_changes :
    (p : Text) (files : Dict Text) (prior : Dict PriorState)
    → lookup p files ≡ none
    → has path_of p (prior_changes files prior) ≡ is_some (lookup p prior)
has-prior_changes p files [] h = unfold prior_changes lookup in refl
has-prior_changes p files ((k, st) ∷ prior) h = elim (Bool-cases (text_eq k p)) [
  | inl e ↦
      let absent : lookup k files ≡ none =
        subst (λ q. lookup q files ≡ none) (sym ((text_eq_iff k p).0 e)) h in
      rw (prior-cons, lookup-cons, absent, e) refl
  | inr e ↦
      let rest = has-prior_changes p files prior h in
      elim (Bool-cases (is_some (lookup k files))) [
        | inl s ↦ rw (prior-cons, lookup-cons, s, e) rest
        | inr s ↦ rw (prior-cons, lookup-cons, s, e) rest
      ]
]

entries-found : {V : Type 0} (m : Dict V) → Distinct m → All (λ e. lookup e.0 m ≡ some e.1) m
entries-found [] h = tt
entries-found ((k, v) ∷ m) (hk, h) = (
  rw (lookup-cons, text_eq_self k) refl,
  All-map _ _ (λ e found. rw lookup-cons (ground (arith, found, hk, text_eq_iff k e.0))) m
      (entries-found m h),
)

files-asked :
    (v : Text → Option Text) (files : Dict Text)
    → All (λ e. v e.0 ≡ some e.1) files
    → All (λ c. asked c ≡ v c.path) (file_changes files)
unfolding file_changes
files-asked v [] h = tt
files-asked v ((k, bytes) ∷ files) (hk, h) = (sym hk, files-asked v files h)

prior-asked :
    (v : Text → Option Text) (files : Dict Text) (prior : Dict PriorState)
    → All (λ e. lookup e.0 files ≡ none → prior_value e.1 ≡ v e.0) prior
    → All (λ c. asked c ≡ v c.path) (prior_changes files prior)
prior-asked v files [] h = unfold prior_changes in tt
prior-asked v files ((k, st) ∷ prior) (hk, h) = elim (Option-cases (lookup k files)) [
  | inr (bytes, e) ↦ rw (prior-cons, e) (prior-asked v files prior h)
  | inl e ↦ rw (prior-cons, e) (asked_as st.existed refl ∙ hk e, prior-asked v files prior h)
]
  where
    asked_as :
        (b : Bool) → st.existed ≡ b → (if not b then none else some st.data_of) ≡ prior_value st
    asked_as b e = ground arith

module _ (at_checkpoint : Text → Option Text) (id : Text) (d : Disk Manager)
    (k : Kept at_checkpoint id d) where
  abbrev s : CheckpointSnapshot
  s = k.snapshot

  -- Every change that a revert makes puts back what its path held at the checkpoint.
  changes-asked : All (λ c. asked c ≡ at_checkpoint c.path) (revert_changes s)
  changes-asked = All-sort_by path_of _ _ (
      All-append (λ c. asked c ≡ at_checkpoint c.path) (file_changes s.files)
        (prior_changes s.files s.prior)
        (files-asked at_checkpoint s.files (
          All-map _ _ (λ e found. captured e.0 e.1 found) s.files
            (entries-found s.files k.files_once)))
        (prior-asked at_checkpoint s.files s.prior (
          All-map _ _ (λ e found. λ absent. noted_at e.0 e.1 absent found) s.prior
            (entries-found s.prior k.prior_once))))
    where
      captured : (p bytes : Text) → lookup p s.files ≡ some bytes → at_checkpoint p ≡ some bytes
      captured p bytes e = sym (k.tracks p) ∙ (rw e refl)

      noted_at :
          (p : Text) (st : PriorState)
          → lookup p s.files ≡ none
          → lookup p s.prior ≡ some st
          → prior_value st ≡ at_checkpoint p
      noted_at p st ef ep = rw (ef, ep) at (k.tracks p)

  -- Together they put every path back, since one that no change names still holds what it held.
  pub final-at_checkpoint :
      (p : Text) → final p (revert_changes s) (data_at p d.files) ≡ at_checkpoint p
  final-at_checkpoint p =
      final_uniform at_checkpoint p (revert_changes s) (data_at p d.files) changes-asked
      ∙ ap (λ b. if b then at_checkpoint p else data_at p d.files)
          (has-sort_by path_of p _
            ∙ has-append p (file_changes s.files) (prior_changes s.files s.prior))
      ∙ by_case (lookup p s.files) (lookup p s.prior) refl refl
    where
      by_case :
          (f : Option Text) (o : Option PriorState)
          → lookup p s.files ≡ f
          → lookup p s.prior ≡ o
          → (if has path_of p (file_changes s.files)
                || has path_of p (prior_changes s.files s.prior)
              then at_checkpoint p
              else data_at p d.files)
            ≡ at_checkpoint p
      by_case (some bytes) o ef eo = rw (has-file_changes, ef) refl
      by_case none (some st) ef eo =
          rw (has-file_changes, has-prior_changes p s.files s.prior ef, ef, eo) refl
      by_case none none ef eo =
          rw (has-file_changes, has-prior_changes p s.files s.prior ef, ef, eo)
            (rw (ef, eo) at (k.tracks p))
