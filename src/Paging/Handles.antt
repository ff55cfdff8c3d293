-- ===== src/Paging/Handles.antt =====
-- The continuation store: at most 64 handles, of which the newest are kept.
use mathlib.Core.Path.{subst}
use arno.Base.{
  none, Bool, true, ◌||◌, ℕ, suc, ◌+◌, ◌<◌, ◌≤◌, ◌≡◌, ◌≢◌, ◌⊎◌, inl, inr, refl, sym, ap, ◌∙◌, false,
  List, [], ◌∷◌, ◌++◌, some, Text, text_eq, text_eq_iff, text_eq_self, arith, length, length-append,
  Bool-cases, Dict, lookup, insert, remove, lookup-insert, lookup-remove, if◌then◌else◌, ltb,
  ltb→lt, ltb→le,
}
use arno.Decimal.{max_int}
use arno.Decimal.RoundTrip.{itoa-injective}
use arno.Paging.Store.{Continuation, Store, handle_of, trim, put, get, max_continuations}

-- The handles are numbered without gaps from the one behind `n`.
abbrev pub Handles : ℕ → List Text → Type 0
Handles n [] = Unit
Handles n (h ∷ hs) = (h ≡ handle_of (suc n)) × Handles (suc n) hs

abbrev pub is_kept : Text → List Text → Bool
is_kept k [] = false
is_kept k (h ∷ hs) = text_eq h k || is_kept k hs

-- The handles are numbered without gaps behind the dropped ones, there are at most 64 of them, and
-- no other handle has an entry.
pub record IsStore (c : Store) : Type 0 where
  pub dropped : ℕ
  pub ordered : Handles dropped c.order
  pub counted : dropped + length c.order ≡ c.next
  pub bounded : length c.order ≤ max_continuations
  pub only_kept : (k : Text) → (lookup k c.entries ≡ none) ⊎ (is_kept k c.order ≡ true)

is_kept-append :
    (k : Text) (hs : List Text) (h : Text)
    → is_kept k (hs ++ h ∷ []) ≡ (is_kept k hs || text_eq h k)
is_kept-append k [] h = ground arith
is_kept-append k (x ∷ hs) h = ground (arith, is_kept-append k hs h)

-- Where only the kept handles have entries, this is so behind an insertion.
insert-only_kept :
    (entries : Dict Continuation) (order : List Text) (h : Text) (entry : Continuation) (k : Text)
    → (lookup k entries ≡ none) ⊎ (is_kept k order ≡ true)
    → (lookup k (insert h entry entries) ≡ none) ⊎ (is_kept k (order ++ h ∷ []) ≡ true)
insert-only_kept entries order h entry k known = elim (Bool-cases (text_eq h k)) [
  | inl e ↦ inr (ground (arith, is_kept-append k order h))
  | inr e ↦
      rw (lookup-insert, e)
        (elim known [
          | inl none_there ↦ inl none_there
          | inr there ↦ inr (ground (arith, is_kept-append k order h))
        ])
]

-- A handle that is dropped with its entry.
remove-only_kept :
    (entries : Dict Continuation) (oldest : Text) (order : List Text) (k : Text)
    → (lookup k entries ≡ none) ⊎ (is_kept k (oldest ∷ order) ≡ true)
    → (lookup k (remove oldest entries) ≡ none) ⊎ (is_kept k order ≡ true)
remove-only_kept entries oldest order k known = elim (Bool-cases (text_eq oldest k)) [
  | inl e ↦ inl (rw (lookup-remove, e) refl)
  | inr e ↦
      rw (lookup-remove, e)
        (elim known [ inl none_there ↦ inl none_there | inr there ↦ inr (ground arith) ])
]

Handles-append :
    (n : ℕ) (hs : List Text) (m : ℕ)
    → Handles n hs
    → n + length hs ≡ m
    → Handles n (hs ++ handle_of (suc m) ∷ [])
Handles-append n [] m h e =
    let e' : n ≡ m = omega arith in (ap (λ k. handle_of (suc k)) (sym e'), tt)
Handles-append n (x ∷ hs) m (hx, h) e = (hx, Handles-append (suc n) hs m h (omega arith))

trim_short :
    (entries : Dict Continuation) (order : List Text)
    → length order ≤ max_continuations
    → trim entries order ≡ (entries, order)
unfolding trim
trim_short entries [] h = refl
trim_short entries (x ∷ order) h = ground arith

trim_full :
    (entries : Dict Continuation) (oldest : Text) (order : List Text)
    → length order ≡ max_continuations
    → trim entries (oldest ∷ order) ≡ (remove oldest entries, order)
trim_full entries oldest order h =
    unfold trim in ground (arith, trim_short (remove oldest entries) order (omega arith))

handle-ne :
    (n m : ℕ) → n ≢ m → n ≤ max_int → m ≤ max_int → text_eq (handle_of n) (handle_of m) ≡ false
handle-ne n m ne hn hm = elim (Bool-cases (text_eq (handle_of n) (handle_of m))) [
  | inl e ↦ absurd (ne (itoa-injective n m hn hm (tails ((text_eq_iff _ _).0 e))))
  | inr e ↦ e
]
  where
    tails : {c d : ℕ} {s t : Text} → c ∷ s ≡ d ∷ t → s ≡ t
    tails e = cc

-- One handle more goes in as it is, or pushes the oldest out.
data Trimmed (entries : Dict Continuation) (order : List Text) (h : Text) : Type 0 where
  grown :
      length order < max_continuations
      → trim entries (order ++ h ∷ []) ≡ (entries, order ++ h ∷ [])
      → Trimmed entries order h
  rolled :
      (oldest : Text) (rest : List Text)
      → order ≡ oldest ∷ rest
      → length rest + 1 ≡ max_continuations
      → trim entries (order ++ h ∷ []) ≡ (remove oldest entries, rest ++ h ∷ [])
      → Trimmed entries order h

trim-Trimmed :
    (entries : Dict Continuation) (order : List Text) (h : Text)
    → length order ≤ max_continuations
    → Trimmed entries order h
trim-Trimmed entries [] h le = grown (omega arith) (trim_short entries (h ∷ []) (omega arith))
trim-Trimmed entries (x ∷ xs) h le = elim (Bool-cases (ltb (length (x ∷ xs)) max_continuations)) [
  | inl room ↦
      let lt : length (x ∷ xs) < max_continuations = ltb→lt _ _ room in
      grown lt (trim_short entries (x ∷ xs ++ h ∷ []) (omega (arith, length-append xs (h ∷ []))))
  | inr full ↦
      let ge : max_continuations ≤ length (x ∷ xs) = ltb→le _ _ full in
      rolled x xs refl (omega arith)
        (trim_full entries x (xs ++ h ∷ []) (omega (arith, length-append xs (h ∷ []))))
]

module _ (entry : Continuation) (c : Store) (valid : IsStore c) where
  abbrev pub fresh : Text
  fresh = handle_of (c.next + 1)

  -- What `put` leaves at a handle: the entry at the fresh one; at another, what it held, unless it
  -- was the oldest of 64.
  pub lookup-put :
      (k : ℕ)
      → (valid.dropped + 1 < k) ⊎ (length c.order < max_continuations)
      → k ≤ max_int
      → valid.dropped + 1 ≤ max_int
      → lookup (handle_of k) (put entry c).1.entries
        ≡ (if text_eq fresh (handle_of k) then some entry else lookup (handle_of k) c.entries)
  lookup-put k kept hk hd =
      unfold put in
      by_case (trim-Trimmed (insert fresh entry c.entries) c.order fresh valid.bounded)
    where
      by_case :
          Trimmed (insert fresh entry c.entries) c.order fresh
          → lookup (handle_of k) (trim (insert fresh entry c.entries) (c.order ++ fresh ∷ [])).0
            ≡ (if text_eq fresh (handle_of k) then some entry else lookup (handle_of k) c.entries)
      by_case (grown _ e) = rw (e, lookup-insert)
      by_case (rolled oldest rest eo len e) =
          let first : oldest ≡ handle_of (suc valid.dropped) =
            (subst (Handles valid.dropped) eo valid.ordered).0 in
          let before : length c.order ≡ suc (length rest) = ap length eo in
          let ne : text_eq (handle_of (suc valid.dropped)) (handle_of k) ≡ false =
            handle-ne (suc valid.dropped) k (omega arith) (omega arith) hk in
          rw (e, lookup-remove, first, ne, lookup-insert)

  -- Putting an entry keeps the handles numbered without gaps up to the newest, and at most 64, and
  -- no other handle has an entry: one that is dropped is no longer answered.
  pub put-IsStore : IsStore (put entry c).1
  put-IsStore =
      unfold put in
      by_case (trim-Trimmed (insert fresh entry c.entries) c.order fresh valid.bounded)
    where
      fresh_suc : fresh ≡ handle_of (suc c.next)
      fresh_suc = ap handle_of (omega arith)

      inserted :
          (k : Text)
          → (lookup k (insert fresh entry c.entries) ≡ none)
            ⊎ (is_kept k (c.order ++ fresh ∷ []) ≡ true)
      inserted k = insert-only_kept c.entries c.order fresh entry k (valid.only_kept k)

      all : Handles valid.dropped (c.order ++ fresh ∷ [])
      all = rw fresh_suc (Handles-append valid.dropped c.order c.next valid.ordered valid.counted)

      by_case :
          Trimmed (insert fresh entry c.entries) c.order fresh
          → IsStore (record {
            next = c.next + 1;
            entries = (trim (insert fresh entry c.entries) (c.order ++ fresh ∷ [])).0;
            order = (trim (insert fresh entry c.entries) (c.order ++ fresh ∷ [])).1;
          })
      by_case (grown lt e) = rw e (record {
        dropped = valid.dropped;
        ordered = all;
        counted = omega (arith, valid.counted, length-append c.order (fresh ∷ []));
        bounded = omega (arith, length-append c.order (fresh ∷ []));
        only_kept = inserted;
      })
      by_case (rolled oldest rest eo len e) =
          let rolled_all : Handles valid.dropped (oldest ∷ rest ++ fresh ∷ []) =
            subst (λ order. Handles valid.dropped (order ++ fresh ∷ [])) eo all in
          let before : length c.order ≡ suc (length rest) = ap length eo in
          rw e (record {
            dropped = suc valid.dropped;
            ordered = rolled_all.1;
            counted = omega (arith, valid.counted, length-append rest (fresh ∷ []));
            bounded = omega (arith, length-append rest (fresh ∷ []));
            only_kept = λ k.
                remove-only_kept (insert fresh entry c.entries) oldest (rest ++ fresh ∷ []) k (
                  subst
                    (λ order.
                      (lookup k (insert fresh entry c.entries) ≡ none)
                      ⊎ (is_kept k (order ++ fresh ∷ []) ≡ true))
                    eo (inserted k));
          })

  -- The handle that `put` gives is the fresh one, and it stands for the entry.
  pub fst-put : (put entry c).0 ≡ fresh
  unfolding put
  fst-put = refl

  pub get-put : c.next + 1 ≤ max_int → get (put entry c).0 (put entry c).1 ≡ some entry
  get-put room =
      unfold get in
      rw fst-put (lookup-put (c.next + 1) kept room (omega arith) ∙ (rw (text_eq_self fresh)))
    where
      few :
          (order : List Text)
          → c.order ≡ order
          → (valid.dropped + 1 < c.next + 1) ⊎ (length c.order < max_continuations)
      few [] e = inr (omega (arith, ap length e))
      few (x ∷ xs) e = omega (arith, ap length e)

      kept : (valid.dropped + 1 < c.next + 1) ⊎ (length c.order < max_continuations)
      kept = few c.order refl
