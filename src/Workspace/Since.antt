-- ===== src/Workspace/Since.antt =====
-- What the ledger answers: the paths that changed since a revision.

use arno.Base.{
  ℕ, suc, ◌+◌, ◌-◌, ◌<◌, ◌≤◌, ◌≡◌, refl, sym, ap, ◌∙◌, Bool, true, false, not, ◌||◌, ◌&&◌, List, [],
  ◌∷◌, ◌++◌, Option, none, some, Text, text_eq, text_eq_iff, if◌then◌else◌, Bool-cases, inl, inr,
  arith, length, length-append, length-drop, ltb→lt, ltb→le, drop, ltb, leb, ◌==◌, ==_iff, is_space,
  nat, has_prefix, trim_prefix,
}
use mathlib.Core.Path.{subst}
use arno.Base.Trim.{trim_space-Lacks}
use arno.Decimal.{max_int}
use arno.Decimal.RoundTrip.{atoi-itoa}
use arno.Decimal.Digits.{itoa-NoSpace}
use arno.Events.{Event, Bus}
use arno.Base.Sort.{has, has-sort_by}
use arno.Workspace.{
  Manager, RevisionEntry, occurs, add_once, add_all, sorted, paths_after, is_partial, since,
  max_ledger_entries, bump_revision, changed_since, newest, bumped, entry_paths, emit,
  revision_string,
}

-- Some bump behind revision `n` changed the path.
abbrev pub changed_after : Text → ℕ → List RevisionEntry → Bool
changed_after p n [] = false
changed_after p n (entry ∷ entries) =
    (not (leb entry.revision n) && occurs p entry.paths) || changed_after p n entries

occurs-append :
    (p : Text) (ps : List Text) (q : Text) → occurs p (ps ++ q ∷ []) ≡ (occurs p ps || text_eq q p)
unfolding occurs
occurs-append p [] q = ground arith
occurs-append p (r ∷ ps) q = ground (arith, occurs-append p ps q)

occurs-here :
    (p q : Text) (ps : List Text) → occurs q ps ≡ true → text_eq q p ≡ true → occurs p ps ≡ true
occurs-here p q ps h e = rw ((text_eq_iff q p).0 e) at h

pub occurs-add_once :
    (p : Text) (ps : List Text) (q : Text) → occurs p (add_once ps q) ≡ (occurs p ps || text_eq q p)
occurs-add_once p ps q = elim (Bool-cases (occurs q ps)) [
  | inl e ↦ rw e (ground (arith, occurs-here p q ps e))
  | inr e ↦ rw e (occurs-append p ps q)
]

occurs-add_all :
    (p : Text) (ps qs : List Text) → occurs p (add_all ps qs) ≡ (occurs p ps || occurs p qs)
unfolding add_all occurs
occurs-add_all p ps [] = ground arith
occurs-add_all p ps (q ∷ qs) =
    ground (arith, occurs-add_all p (add_once ps q) qs, occurs-add_once p ps q)

occurs-paths_after :
    (p : Text) (n : ℕ) (ps : List Text) (entries : List RevisionEntry)
    → occurs p (paths_after n ps entries) ≡ (occurs p ps || changed_after p n entries)
unfolding paths_after
occurs-paths_after p n ps [] = ground arith
occurs-paths_after p n ps (entry ∷ entries) = ground (
  arith,
  occurs-paths_after p n ps entries,
  occurs-paths_after p n (add_all ps entry.paths) entries,
  occurs-add_all p ps entry.paths,
)

has-occurs : (p : Text) (ps : List Text) → has (λ q. q) p ps ≡ occurs p ps
unfolding occurs
has-occurs p [] = refl
has-occurs p (q ∷ ps) = ground (arith, has-occurs p ps)

pub occurs-sorted : (p : Text) (ps : List Text) → occurs p (sorted ps) ≡ occurs p ps
occurs-sorted p ps = sym (has-occurs p (sorted ps)) ∙ has-sort_by (λ q. q) p ps ∙ has-occurs p ps

-- The entries from revision n + 1 on are numbered without gaps, up to the workspace's revision.
abbrev pub Numbered : ℕ → List RevisionEntry → Type 0
Numbered n [] = Unit
Numbered n (entry ∷ entries) = (entry.revision ≡ suc n) × Numbered (suc n) entries

-- Every bump since revision `oldest` is in the ledger, and the ledger is within its bound.
pub record IsLedger (oldest : ℕ) (m : Manager) : Type 0 where
  pub numbered : Numbered oldest m.ledger
  pub latest : oldest + length m.ledger ≡ m.revision
  pub bounded : length m.ledger ≤ max_ledger_entries

pub revision-read :
    (n : ℕ)
    → n ≤ max_int
    → (m : Manager) → changed_since (revision_string n) m ≡ since m (some (nat n))
revision-read n h m =
    unfold changed_since in
    rw (trim_space-Lacks (revision_string n) (unfold is_space in refl, itoa-NoSpace n))
      (unfold has_prefix trim_prefix in rw (atoi-itoa n h) refl)

pub complete :
    (oldest n : ℕ) (l : List RevisionEntry)
    → Numbered oldest l
    → oldest ≤ n
    → 0 < length l
    → is_partial n l ≡ false
complete oldest n [] h le pos = absurd (omega arith)
complete oldest n (entry ∷ l) (hd, tl) le pos = ground arith

none_after :
    (p : Text) (n : ℕ) (oldest : ℕ) (l : List RevisionEntry)
    → Numbered oldest l
    → oldest + length l ≤ n
    → changed_after p n l ≡ false
none_after p n oldest [] h le = refl
none_after p n oldest (entry ∷ l) (hd, tl) le = ground (arith, none_after p n (suc oldest) l tl)

occurs-nil : (p : Text) → occurs p [] ≡ false
unfolding occurs
occurs-nil p = refl

-- Where the ledger is numbered without gaps up to the current revision, and so keeps every bump
-- since a revision `oldest`: asked about a revision from 1 on that is not before `oldest` nor
-- behind the current one, and that an int can hold, the workspace answers, and a path is in the
-- answer exactly when an entry behind the asked revision names it.
pub changed_since-occurs :
    (oldest n : ℕ) (m : Manager)
    → IsLedger oldest m
    → 1 ≤ n
    → oldest ≤ n
    → n ≤ m.revision
    → n ≤ max_int
    → (paths : List Text) × (changed_since (revision_string n) m ≡ some paths)
      × ((p : Text) → occurs p paths ≡ changed_after p n m.ledger)
changed_since-occurs oldest n m h pos le le' fits = elim (Bool-cases (n == m.revision)) [
  | inl now ↦ (
    [],
    revision-read n fits m ∙ at_latest now,
    λ p.
        occurs-nil p
        ∙ sym (
            none_after p n oldest m.ledger h.numbered
              (omega (arith, h.latest, (==_iff n m.revision).0 now))),
  )
  | inr older ↦ (
    sorted (paths_after n [] m.ledger),
    revision-read n fits m ∙ before older,
    λ p.
        occurs-sorted p (paths_after n [] m.ledger)
        ∙ occurs-paths_after p n [] m.ledger
        ∙ ap (λ b. b || changed_after p n m.ledger) (occurs-nil p),
  )
]
  where
    at_latest : (n == m.revision) ≡ true → since m (some (nat n)) ≡ some []
    at_latest now = ground arith

    before :
        (n == m.revision) ≡ false
        → since m (some (nat n)) ≡ some (sorted (paths_after n [] m.ledger))
    before older =
        let nonempty : 0 < length m.ledger = ground (arith, h.latest) in
        let whole : is_partial n m.ledger ≡ false =
          complete oldest n m.ledger h.numbered le nonempty in
        ground (arith, whole)

Numbered-append :
    (n : ℕ) (l : List RevisionEntry) (entry : RevisionEntry)
    → Numbered n l
    → entry.revision ≡ suc (n + length l)
    → Numbered n (l ++ entry ∷ [])
Numbered-append n [] entry h e = (omega arith, tt)
Numbered-append n (x ∷ l) entry (hx, h) e = (hx, Numbered-append (suc n) l entry h (omega arith))

Numbered-drop :
    (n : ℕ) (l : List RevisionEntry) → Numbered n l → 0 < length l → Numbered (suc n) (drop 1 l)
Numbered-drop n [] h pos = absurd (omega arith)
Numbered-drop n (x ∷ l) (hx, h) pos = h

emit-IsLedger :
    (oldest : ℕ) (e : Event) (m : Manager) (b : Option Bus)
    → IsLedger oldest m
    → IsLedger oldest (emit e m b)
emit-IsLedger oldest e m none h = h
emit-IsLedger oldest e m (some b) h = record {
  numbered = h.numbered;
  latest = h.latest;
  bounded = h.bounded;
}

newest-Numbered :
    (oldest : ℕ) (l : List RevisionEntry)
    → Numbered oldest l
    → length l ≤ suc max_ledger_entries
    → let oldest' = if ltb max_ledger_entries (length l) then suc oldest else oldest in
      Numbered oldest' (newest max_ledger_entries l)
      × (oldest' + length (newest max_ledger_entries l) ≡ oldest + length l)
      × (length (newest max_ledger_entries l) ≤ max_ledger_entries)
newest-Numbered oldest l h le = elim (Bool-cases (ltb max_ledger_entries (length l))) [
  | inr e ↦ rw e (h, refl, ltb→le max_ledger_entries (length l) e)
  | inl e ↦
      let one : length l - max_ledger_entries ≡ 1 =
        omega (arith, ltb→lt max_ledger_entries (length l) e) in
      rw (e, one)
        (
          Numbered-drop oldest l h (omega (arith, one)),
          omega (arith, length-drop 1 l, one),
          omega (arith, length-drop 1 l, one),
        )
]

-- A bump keeps the ledger numbered without gaps up to the new revision and within its bound; a full
-- ledger gives up its oldest entry for that, and only then.
pub bump_revision-IsLedger :
    (oldest : ℕ) (changed_paths : List Text) (m : Manager)
    → IsLedger oldest m
    → IsLedger
        (if ltb max_ledger_entries (length m.ledger + 1) then suc oldest else oldest)
        (bump_revision changed_paths m).1
bump_revision-IsLedger oldest changed_paths m h =
    unfold bump_revision in
    emit-IsLedger _ _ _ m.bus (
      let entry : RevisionEntry = record {
        revision = m.revision + 1;
        paths = sorted (entry_paths [] changed_paths);
      } in
      let grown = length-append m.ledger (entry ∷ []) in
      let next =
        newest-Numbered oldest (m.ledger ++ entry ∷ [])
          (Numbered-append oldest m.ledger entry h.numbered (omega (arith, h.latest)))
          (omega (arith, grown, h.bounded)) in
      subst
        (λ n.
          IsLedger (if ltb max_ledger_entries n then suc oldest else oldest)
            (bumped changed_paths m))
        grown
        (record {
          numbered = next.0;
          latest = next.1 ∙ omega (arith, h.latest, grown);
          bounded = next.2;
        }))
