-- ===== src/Worktrees/Recent.antt =====
-- What a lookup finds, and where it leaves the graph.
use arno.Base.{
  ◌≡◌, refl, ap, Bool, true, false, List, [], ◌∷◌, ◌++◌, Option, none, some, Text, All, Bool-cases,
  inl, inr,
}
use arno.Worktrees.{Graph, GraphCache, behind, split_at_first, touched, lookup_graph}

-- `found` is the first graph of `gs` that the test accepts; `moved` is `gs` with it in front.
record IsFirst (test : Graph → Bool) (gs : List Graph) (found : Graph) (front back : List Graph)
    : Type 0 where
  joins : gs ≡ front ++ found ∷ back
  accepted : test found ≡ true
  refused : All (λ g. test g ≡ false) front

-- What a lookup answers: nothing, and no open graph would do; or the first graph that would, which
-- is the most recently used one afterwards while the others keep their order.
pub data Looked (test : Graph → Bool) (c : GraphCache) : Option Graph × GraphCache → Type 0 where
  absent : All (λ g. test g ≡ false) c.open_graphs → Looked test c (none, c)
  present :
      (front : List Graph) (found : Graph) (back : List Graph)
      → c.open_graphs ≡ front ++ found ∷ back
      → test found ≡ true
      → All (λ g. test g ≡ false) front
      → Looked test c (some found, record c { open_graphs = found ∷ front ++ back })

abbrev Splits : (Graph → Bool) → List Graph → Option (List Graph × Graph × List Graph) → Type 0
Splits test gs none = All (λ g. test g ≡ false) gs
Splits test gs (some (front, found, back)) = IsFirst test gs found front back

behind-Splits :
    (test : Graph → Bool) (g : Graph) (gs : List Graph)
    (o : Option (List Graph × Graph × List Graph))
    → test g ≡ false
    → Splits test gs o
    → Splits test (g ∷ gs) (behind g o)
behind-Splits test g gs none e h = (e, h)
behind-Splits test g gs (some (front, found, back)) e h = record {
  joins = ap (◌∷◌ g) h.joins;
  accepted = h.accepted;
  refused = (e, h.refused);
}

split-Splits : (test : Graph → Bool) (gs : List Graph) → Splits test gs (split_at_first test gs)
unfolding split_at_first
split-Splits test [] = tt
split-Splits test (g ∷ gs) = elim (Bool-cases (test g)) [
  | inl e ↦ rw e (record { joins = refl; accepted = e; refused = tt })
  | inr e ↦ rw e (behind-Splits test g gs (split_at_first test gs) e (split-Splits test gs))
]

-- A lookup finds the first open graph whose root is the directory asked for, if there is one, and
-- moves it to the front; the other graphs keep their order, and nothing is opened or closed.
pub lookup_graph-Looked :
    (same_dir : Text → Text → Bool) (root : Text) (c : GraphCache)
    → Looked (λ g. same_dir g.root root) c (lookup_graph same_dir root c)
lookup_graph-Looked same_dir root c =
    unfold lookup_graph in
    by_split (split_at_first test c.open_graphs) (split-Splits test c.open_graphs)
  where
    test : Graph → Bool
    test g = same_dir g.root root

    by_split :
        (o : Option (List Graph × Graph × List Graph))
        → Splits test c.open_graphs o
        → Looked test c (touched c o)
    by_split none h = absent h
    by_split (some (front, found, back)) h = present front found back h.joins h.accepted h.refused
