-- ===== src/Batches/Digest.antt =====
-- `checkDigest`: when an edit that gives a digest is let through.
use arno.Base.{
  ◌≡◌, ◌↔◌, ◌⊎◌, inl, inr, refl, ap, ◌∙◌, Bool, true, false, [], Option, none, some, Text, text_eq,
  text_eq_iff, is_empty, if◌then◌else◌, trim_space, lookup, Bool-cases,
}
use arno.Batches.{DigestError, check_read, check_digest}
use arno.Disk.{Node, Disk, read_file, read_node}
use arno.Disk.Atomic.{data_in, data_at}

module _ {ℓ} {S : Type ℓ} (resolves : Text → Bool) (digest : Text → Text) where
  -- Where reads do not fail, an edit is let through exactly when it gives no digest, or the path is
  -- inside the workspace and the file is there with the digest that it gives.
  pub check_digest-none_iff :
      (path expected : Text) (d : Disk S)
      → d.read_faults ≡ []
      → ((check_digest resolves digest path expected d).0 ≡ none) ↔ (
          (is_empty (trim_space expected) ≡ true)
          ⊎ ((resolves path ≡ true)
              × (bytes : Text) × (data_at path d.files ≡ some bytes)
              × (digest bytes ≡ trim_space expected)))
  unfolding check_digest read_file
  check_digest-none_iff path expected d reads = rw reads (
    forth (is_empty (trim_space expected)) (resolves path) (lookup path d.files),
    back (is_empty (trim_space expected)) (resolves path) (lookup path d.files),
  )
    where
      Passes : Bool → Bool → Option Node → Type 0
      Passes blank inside n =
          (blank ≡ true)
          ⊎ ((inside ≡ true)
              × (bytes : Text) × (data_in n ≡ some bytes)
              × (digest bytes ≡ trim_space expected))

      outcome : Bool → Bool → Option Node → Option DigestError
      outcome blank inside n =
          let now = record d { read_faults = [] } in
          (if blank
            then (none, now)
            else if inside
            then check_read resolves digest path (trim_space expected) (read_node n, now)
            else (some (DigestError.outside path), now)).0

      forth :
          (blank inside : Bool) (n : Option Node)
          → outcome blank inside n ≡ none
          → Passes blank inside n
      forth true inside n e = inl refl
      forth false false n e = absurd cc
      forth false true none e = absurd cc
      forth false true (some n) e =
          elim (Bool-cases (text_eq (digest n.data_of) (trim_space expected))) [
            | inl q ↦ inr (refl, n.data_of, refl, (text_eq_iff _ _).0 q)
            | inr q ↦ let no = rw q at e in absurd cc
          ]

      back :
          (blank inside : Bool) (n : Option Node)
          → Passes blank inside n
          → outcome blank inside n ≡ none
      back true inside n h = refl
      back false inside n (inl e) = absurd cc
      back false false n (inr (e, bytes, e', h)) = absurd cc
      back false true none (inr (e, bytes, e', h)) = absurd cc
      back false true (some n) (inr (e, bytes, e', h)) =
          let same : n.data_of ≡ bytes = cc in
          let q : text_eq (digest n.data_of) (trim_space expected) ≡ true =
            (text_eq_iff _ _).1 (ap digest same ∙ h) in
          rw q refl
