-- ===== src/Service/Stale.antt =====
-- `checkRevision`: when an edit's expected revision is refused, and what the refusal says.
use arno.Base.{
  ℕ, ◌≡◌, ◌≤◌, ◌<◌, refl, ap, sym, ◌∙◌, true, false, List, Option, none, some, Text, text_eq,
  text_eq_iff, text_eq_self, drop, trim_space, nat, is_space, ◌==◌, Bool-cases, inl, inr, arith,
}
use arno.Base.Trim.{trim_space-Lacks}
use arno.Decimal.{itoa, atoi, max_int}
use arno.Decimal.Digits.{itoa-NoSpace}
use arno.Decimal.RoundTrip.{atoi-itoa}
use arno.Service.{StaleRevision, check_revision}
use arno.Workspace.{Manager, revision_string, occurs}
use arno.Workspace.Since.{IsLedger, changed_after, changed_since-occurs}

-- `current`: the expected revision is the workspace's. `behind`: it is an earlier one, and the
-- refusal names the paths that the bumps since then changed.
pub data Checked (n : ℕ) (m : Manager) : Option StaleRevision → Type 0 where
  current : n ≡ m.revision → Checked n m none
  behind :
      (e : StaleRevision) (paths : List Text)
      → n < m.revision
      → e.expected ≡ revision_string n
      → e.current ≡ revision_string m.revision
      → e.changed ≡ some paths
      → ((p : Text) → occurs p paths ≡ changed_after p n m.ledger)
      → Checked n m (some e)

trimmed : (n : ℕ) → trim_space (revision_string n) ≡ revision_string n
trimmed n = trim_space-Lacks (revision_string n) (unfold is_space in refl, itoa-NoSpace n)

revision_string-injective :
    (n k : ℕ) → n ≤ max_int → k ≤ max_int → revision_string n ≡ revision_string k → n ≡ k
revision_string-injective n k hn hk e =
    let read : atoi (itoa n) ≡ atoi (itoa k) = ap (λ s. atoi (drop 1 s)) e in
    let both : some (nat n) ≡ some (nat k) = sym (atoi-itoa n hn) ∙ read ∙ atoi-itoa k hk in cc

-- An edit that expects a revision is let through when that is the workspace's, and when it is an
-- earlier one that the ledger reaches back to, it is refused with the paths changed since.
pub check_revision-Checked :
    (oldest n : ℕ) (m : Manager)
    → IsLedger oldest m
    → 1 ≤ n
    → oldest ≤ n
    → n ≤ m.revision
    → m.revision ≤ max_int
    → Checked n m (check_revision (revision_string n) m)
unfolding check_revision
check_revision-Checked oldest n m h pos le le' fits =
    rw (trimmed n) (elim (Bool-cases (text_eq (revision_string n) (revision_string m.revision))) [
      | inl e ↦ rw e (
          current
            (revision_string-injective n m.revision (omega arith) fits ((text_eq_iff _ _).0 e)))
      | inr e ↦ rw e (
          let (paths, known, exact) = changed_since-occurs oldest n m h pos le le' (omega arith) in
          behind _ paths (earlier e) refl refl known exact)
    ])
  where
    earlier : text_eq (revision_string n) (revision_string m.revision) ≡ false → n < m.revision
    earlier e = elim (Bool-cases (n == m.revision)) [
      | inr ne ↦ ground arith
      | inl eq ↦
          let same : n ≡ m.revision = ground arith in
          let clash : text_eq (revision_string n) (revision_string m.revision) ≡ true =
            ap (λ k. text_eq (revision_string n) (revision_string k)) (sym same)
            ∙ text_eq_self (revision_string n) in
          absurd cc
    ]
