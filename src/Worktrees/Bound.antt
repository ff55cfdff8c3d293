-- ===== src/Worktrees/Bound.antt =====
-- What an eviction closes and what it leaves open.

use arno.Base.{
  ℕ, zero, suc, ◌+◌, ◌≤◌, ◌≡◌, ◌⊎◌, inl, inr, refl, sym, ap, ◌∙◌, true, List, [], ◌∷◌, ◌++◌, Option,
  none, some, arith, ltb, ltb→lt, ltb→le, ◌==◌, length, if◌then◌else◌, Bool-cases, append_assoc,
  append-nil,
}
use arno.Worktrees.{
  Graph, GraphCache, or_this, take_victim, drop_victim, evict_loop, evict, add, open_graph,
}

abbrev pub others : ℕ → List Graph → List Graph
others keep [] = []
others keep (g ∷ gs) = if g.id == keep then others keep gs else g ∷ others keep gs

abbrev pub kept : ℕ → List Graph → List Graph
kept keep [] = []
kept keep (g ∷ gs) = if g.id == keep then g ∷ kept keep gs else kept keep gs

abbrev pub reversed : List Graph → List Graph
reversed [] = []
reversed (g ∷ gs) = reversed gs ++ g ∷ []

-- `left` is what stays of `open_graphs` when `dropped` is closed, in that order: the kept graph is
-- not touched, of the others the oldest go first, and they go until the bound is met or the kept
-- graph alone is left.
pub record IsEvicted (max keep : ℕ) (open_graphs dropped left : List Graph) : Type 0 where
  pub keeps : kept keep left ≡ kept keep open_graphs
  pub oldest : others keep open_graphs ≡ others keep left ++ reversed dropped
  pub counted : length dropped + length left ≡ length open_graphs
  pub bounded : (length left ≤ max) ⊎ (others keep left ≡ [])
  pub needed : (dropped ≡ []) ⊎ (max ≤ length left)

record IsVictim (keep : ℕ) (gs : List Graph) (victim : Graph) (rest : List Graph) : Type 0 where
  keeps : kept keep rest ≡ kept keep gs
  last : others keep gs ≡ others keep rest ++ victim ∷ []
  shorter : length gs ≡ suc (length rest)

abbrev Taken : ℕ → List Graph → Option (Graph × List Graph) → Type 0
Taken keep gs none = others keep gs ≡ []
Taken keep gs (some (victim, rest)) = IsVictim keep gs victim rest

this-Taken :
    (keep : ℕ) (g : Graph) (gs : List Graph) (o : Option (Graph × List Graph))
    → Taken keep gs o
    → Taken keep (g ∷ gs) (or_this keep g gs o)
this-Taken keep g gs none h = elim (Bool-cases (g.id == keep)) [
  | inl e ↦ rw e (rw e h)
  | inr e ↦ rw e (record { keeps = rw e refl; last = rw (e, h); shorter = refl })
]
this-Taken keep g gs (some (victim, rest)) h = elim (Bool-cases (g.id == keep)) [
  | inl e ↦ record {
    keeps = rw e (ap (◌∷◌ g) h.keeps);
    last = rw e h.last;
    shorter = ap suc h.shorter;
  }
  | inr e ↦ record {
    keeps = rw e h.keeps;
    last = rw e (ap (◌∷◌ g) h.last);
    shorter = ap suc h.shorter;
  }
]

take_victim-Taken : (keep : ℕ) (gs : List Graph) → Taken keep gs (take_victim keep gs)
unfolding take_victim
take_victim-Taken keep [] = refl
take_victim-Taken keep (g ∷ gs) =
    this-Taken keep g gs (take_victim keep gs) (take_victim-Taken keep gs)

within :
    (max keep : ℕ) (gs : List Graph)
    → (length gs ≤ max) ⊎ (others keep gs ≡ [])
    → IsEvicted max keep gs [] gs
within max keep gs h = record {
  keeps = refl;
  oldest = sym (append-nil (others keep gs));
  counted = omega arith;
  bounded = h;
  needed = inl refl;
}

left-size :
    (max : ℕ) (gs rest dropped left : List Graph)
    → ltb max (length gs) ≡ true
    → length gs ≡ suc (length rest)
    → length dropped + length left ≡ length rest
    → (dropped ≡ []) ⊎ (max ≤ length left)
    → max ≤ length left
left-size max gs rest dropped left over shorter counted (inr le) = le
left-size max gs rest dropped left over shorter counted (inl nothing) =
    omega (arith, ap length nothing, ltb→lt max (length gs) over)

one_round :
    (max keep : ℕ) (gs : List Graph) (next : List Graph → List Graph × List Graph)
    → ltb max (length gs) ≡ true
    → ((rest : List Graph)
        → length gs ≡ suc (length rest)
        → IsEvicted max keep rest (next rest).0 (next rest).1)
    → (o : Option (Graph × List Graph)) → Taken keep gs o
    → let result = drop_victim next gs o in IsEvicted max keep gs result.0 result.1
one_round max keep gs next over tails none h = within max keep gs (inr h)
one_round max keep gs next over tails (some (victim, rest)) h =
    let tail = tails rest h.shorter in
    record {
      keeps = tail.keeps ∙ h.keeps;
      oldest =
          h.last
          ∙ ap (λ l. l ++ victim ∷ []) tail.oldest
          ∙ append_assoc (others keep (next rest).1) (reversed (next rest).0) (victim ∷ []);
      counted = omega (arith, tail.counted, h.shorter);
      bounded = tail.bounded;
      needed = inr (left-size max gs rest _ _ over h.shorter tail.counted tail.needed);
    }

loop-suc :
    (max keep fuel : ℕ) (gs : List Graph)
    → evict_loop max keep (suc fuel) gs ≡ (
        if ltb max (length gs)
        then drop_victim (evict_loop max keep fuel) gs (take_victim keep gs)
        else ([], gs))
unfolding evict_loop
loop-suc max keep fuel gs = refl

loop-IsEvicted :
    (max keep fuel : ℕ) (gs : List Graph)
    → length gs ≤ fuel
    → let result = evict_loop max keep fuel gs in IsEvicted max keep gs result.0 result.1
loop-IsEvicted max keep zero gs enough = unfold evict_loop in within max keep gs (inl (omega arith))
loop-IsEvicted max keep (suc fuel) gs enough = elim (Bool-cases (ltb max (length gs))) [
  | inr e ↦ rw (loop-suc max keep fuel gs, e) (within max keep gs (inl (ltb→le max (length gs) e)))
  | inl e ↦
      rw (loop-suc max keep fuel gs, e)
        (one_round max keep gs (evict_loop max keep fuel) e
          (λ rest s. loop-IsEvicted max keep fuel rest (omega (arith, s))) (take_victim keep gs)
          (take_victim-Taken keep gs))
]

-- Opening one graph more closes the least recently used graphs, never the kept one, until the cache
-- is within its bound or holds nothing else.
pub open_graph-IsEvicted :
    (keep : ℕ) (g : Graph) (c : GraphCache)
    → let (dropped, c') = open_graph keep g c in
      IsEvicted c.max keep (g ∷ c.open_graphs) dropped c'.open_graphs
open_graph-IsEvicted keep g c =
    unfold open_graph evict add in
    loop-IsEvicted c.max keep (suc (length c.open_graphs)) (g ∷ c.open_graphs) (omega arith)
