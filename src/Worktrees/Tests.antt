-- ===== src/Worktrees/Tests.antt =====
-- The properties of the graph cache at concrete inputs.
use arno.Base.{ℕ, [], ◌∷◌, codes, text_eq}
use arno.Worktrees.{Graph, GraphCache, lookup_graph, open_graph}
use arno.Worktrees.Bound.{IsEvicted, open_graph-IsEvicted}
use arno.Worktrees.Recent.{Looked, lookup_graph-Looked}

abbrev graph : ℕ → Graph
graph n = record { id = n; root = b'/' ∷ n ∷ [] }

abbrev full : GraphCache
full = record { max = 3; open_graphs = graph 66 ∷ graph 67 ∷ graph 65 ∷ [] }

open_graph-IsEvicted_example :
    let (dropped, c') = open_graph 65 (graph 68) full in
    IsEvicted 3 65 (graph 68 ∷ full.open_graphs) dropped c'.open_graphs
open_graph-IsEvicted_example = open_graph-IsEvicted 65 (graph 68) full

lookup_graph-Looked_example :
    Looked (λ g. text_eq g.root (codes "/C")) full (lookup_graph text_eq (codes "/C") full)
lookup_graph-Looked_example = lookup_graph-Looked text_eq (codes "/C") full
