-- ===== src/Events/Cursor.antt =====
-- Reading by cursor: what a caller that polls the bus sees.
use arno.Base.{
  ℕ, zero, suc, ◌+◌, ◌-◌, ◌≤◌, ◌<◌, ◌≡◌, refl, sym, ap, ◌∙◌, List, [], ◌∷◌, ◌++◌, map, append-nil,
  append_assoc, arith, take, drop, length, length-append, drop-drop, GoInt, negative, nat,
  positive_or, All, if◌then◌else◌, leb, Bool-cases, inl, inr,
}
use native.Mathlib.Nat.{zero-add, sub-zero}
use arno.Events.{Event, Record, Channel, Bus, publish, events, collect, offer}

-- The records behind `n` others carry the cursors n + 1, n + 2, …
abbrev pub Numbered : ℕ → List Record → Type 0
Numbered n [] = Unit
Numbered n (r ∷ rs) = (r.cursor ≡ suc n) × Numbered (suc n) rs

abbrev Fits : Channel → Type 0
Fits ch = length ch.queue ≤ ch.buffer

pub record IsConsistent (b : Bus) : Type 0 where
  pub numbered : Numbered 0 b.history
  pub latest : length b.history ≡ b.next_cursor
  pub buffered : All Fits b.subscribers

Numbered-append :
    (n : ℕ) (rs : List Record) (r : Record)
    → Numbered n rs
    → r.cursor ≡ n + length rs + 1
    → Numbered n (rs ++ r ∷ [])
Numbered-append n [] r h e = (omega arith, tt)
Numbered-append n (q ∷ rs) r (hq, h) e = (hq, Numbered-append (suc n) rs r h (omega arith))

offer-Fits : (e : Event) (chs : List Channel) → All Fits chs → All Fits (map (offer e) chs)
offer-Fits e [] h = tt
offer-Fits e (ch ∷ chs) (hc, h) = (one ch hc, offer-Fits e chs h)
  where
    one : (ch : Channel) → Fits ch → Fits (offer e ch)
    one ch hc = unfold offer in ground (arith, length-append ch.queue (e ∷ []))

-- Publishing keeps the history numbered without gaps from 1 and every subscriber's queue within
-- its buffer, whether or not that subscriber has room.
pub publish-IsConsistent : (e : Event) (b : Bus) → IsConsistent b → IsConsistent (publish e b)
unfolding publish
publish-IsConsistent e b h = record {
  numbered = Numbered-append 0 b.history _ h.numbered (omega (arith, h.latest));
  latest = omega (
    arith,
    h.latest,
    length-append b.history (record { cursor = b.next_cursor + 1; event = e } ∷ []),
  );
  buffered = offer-Fits e b.subscribers h.buffered;
}

take-drop-nil : (k n : ℕ) → take {A = Record} k (drop n []) ≡ []
take-drop-nil zero n = refl
take-drop-nil (suc k) zero = refl
take-drop-nil (suc k) (suc n) = refl

-- One record more: the page is full, or the loop goes on with `tail`.
page-step :
    (limit : ℕ) (out : List Record) (r : Record) (rs tail : List Record)
    → length out < limit
    → (suc (length out) < limit → tail ≡ (out ++ r ∷ []) ++ take (limit - suc (length out)) rs)
    → (if leb limit (length (out ++ r ∷ [])) then out ++ r ∷ [] else tail)
      ≡ out ++ r ∷ take (limit - suc (length out)) rs
page-step limit out r rs tail lt go = elim (Bool-cases (leb limit (length (out ++ r ∷ [])))) [
  | inl full ↦
      let e : limit - suc (length out) ≡ 0 = ground (arith, length-append out (r ∷ [])) in
      rw (full, e)
  | inr room ↦
      let lt' : suc (length out) < limit = ground (arith, length-append out (r ∷ [])) in
      rw room (go lt' ∙ append_assoc out (r ∷ []) (take (limit - suc (length out)) rs))
]

collect-seen :
    (a limit n : ℕ) (out rs : List Record)
    → Numbered n rs
    → length out < limit
    → collect (nat a) limit out rs ≡ out ++ take (limit - length out) (drop (a - n) rs)
unfolding collect
collect-seen a limit n out [] h lt = sym (ap (◌++◌ out) (take-drop-nil _ (a - n)) ∙ append-nil out)
collect-seen a limit n out (r ∷ rs) (hr, h) lt = elim (Bool-cases (leb r.cursor a)) [
  | inl old ↦
      let e : a - n ≡ suc (a - suc n) = ground arith in
      rw (old, e) (collect-seen a limit (suc n) out rs h lt)
  | inr new ↦
      let e : a - n ≡ 0 = ground arith in
      let e' : limit - length out ≡ suc (limit - suc (length out)) = omega arith in
      let len : length (out ++ r ∷ []) ≡ suc (length out) =
        length-append out (r ∷ []) ∙ (omega arith) in
      let z : a - suc n ≡ 0 = omega arith in
      rw (new, e, e')
        (page-step limit out r rs _ lt λ lt'.
          rw z at (rw len at (collect-seen a limit (suc n) (out ++ r ∷ []) rs h (omega arith))))
]

-- A page of events is the stretch of the history behind the cursor, at most `limit` long (50 when
-- no positive limit is given), beside the latest cursor whatever the length of the page.
pub events-eq-page :
    (b : Bus) (a : ℕ) (limit : GoInt)
    → IsConsistent b
    → events b (nat a) limit ≡ (take (positive_or 50 limit) (drop a b.history), b.next_cursor)
unfolding events
events-eq-page b a limit h =
    ap (λ page. (page, b.next_cursor))
      (simp sub-zero at
        (collect-seen a (positive_or 50 limit) 0 [] b.history h.numbered (positive limit)))
  where
    positive : (limit : GoInt) → 0 < positive_or 50 limit
    positive negative = omega arith
    positive (nat zero) = omega arith
    positive (nat (suc n)) = omega arith

take-take-drop :
    (n m : ℕ) (rs : List Record)
    → take n rs ++ take m (drop (length (take n rs)) rs) ≡ take (length (take n rs) + m) rs
take-take-drop zero m rs = rw zero-add
take-take-drop (suc n) m [] = rw zero-add
take-take-drop (suc n) m (r ∷ rs) =
    let e : suc (length (take n rs)) + m ≡ suc (length (take n rs) + m) = omega arith in
    rw e (ap (◌∷◌ r) (take-take-drop n m rs))

-- A caller that asks again behind the last record that it was given gets the records that follow:
-- the two pages together are one stretch of the history, with nothing lost and nothing repeated.
pub events_resume :
    (b : Bus) (a : ℕ) (first second : GoInt)
    → IsConsistent b
    → let page = (events b (nat a) first).0 in
      page ++ (events b (nat (a + length page)) second).0
      ≡ take (length page + positive_or 50 second) (drop a b.history)
events_resume b a first second h =
    rw (events-eq-page b a first h, events-eq-page b _ second h)
      (rw (← drop-drop) (take-take-drop _ _ (drop a b.history)))
