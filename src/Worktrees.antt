-- ===== src/Worktrees.antt =====
-- cmd/arno-mcp/workspace_cache.go: the workspace graphs that one server has open, the most recently
-- used one first. A graph is a number that tells two pointers apart, with its root. Whether two
-- spellings name one directory (`sameWorkspaceDir`, which asks the file system) is an argument.
pub mod Tests
pub mod Bound
pub mod Recent
use arno.Base.{
  ℕ, zero, suc, ◌+◌, ◌-◌, Bool, true, false, not, List, [], ◌∷◌, ◌++◌, map, Option, none, some,
  Text, codes, ltb, ◌==◌, length, if◌then◌else◌, is_empty, GoInt, negative, nat, trim_space,
}
use arno.Decimal.{atoi}

pub record Graph : Type 0 where
  pub id : ℕ
  pub root : Text

abbrev pub max_open_workspaces_default : ℕ
max_open_workspaces_default = 3

-- `if err != nil || n < 1`
abbrev pub positive_bound : Option GoInt → ℕ
positive_bound (some (nat n)) = if ltb 0 n then n else max_open_workspaces_default
positive_bound _ = max_open_workspaces_default

-- `env` is what ARNO_MAX_WORKSPACES holds.
unfoldable pub max_open_workspaces : Text → ℕ
max_open_workspaces env =
    if is_empty (trim_space env)
    then max_open_workspaces_default
    else positive_bound (atoi (trim_space env))

pub record GraphCache : Type 0 where
  pub max : ℕ
  pub open_graphs : List Graph

abbrev pub new_graph_cache : ℕ → GraphCache
new_graph_cache max = record { max = max; open_graphs = [] }

-- The first graph that a test accepts, with those in front of it and those behind it.
abbrev pub behind :
    Graph → Option (List Graph × Graph × List Graph) → Option (List Graph × Graph × List Graph)
behind g none = none
behind g (some (front, found, back)) = some (g ∷ front, found, back)

unfoldable pub split_at_first :
    (Graph → Bool) → List Graph → Option (List Graph × Graph × List Graph)
split_at_first test [] = none
split_at_first test (g ∷ gs) =
    let rest = behind g (split_at_first test gs) in if test g then some ([], g, gs) else rest

abbrev pub touched :
    GraphCache → Option (List Graph × Graph × List Graph) → Option Graph × GraphCache
touched c none = (none, c)
touched c (some (front, found, back)) =
    (some found, record c { open_graphs = found ∷ front ++ back })

module _ (same_dir : Text → Text → Bool) where
  -- `lookup`, with the `touch` that moves what it found to the front.
  unfoldable pub lookup_graph : Text → GraphCache → Option Graph × GraphCache
  lookup_graph root c = touched c (split_at_first (λ g. same_dir g.root root) c.open_graphs)

unfoldable pub add : Graph → GraphCache → GraphCache
add g c = record c { open_graphs = g ∷ c.open_graphs }

-- What `evict` takes from the back: the last graph that is not kept, and the others.
abbrev pub or_this :
    ℕ → Graph → List Graph → Option (Graph × List Graph) → Option (Graph × List Graph)
or_this keep g gs (some (victim, rest)) = some (victim, g ∷ rest)
or_this keep g gs none = if g.id == keep then none else some (g, gs)

unfoldable pub take_victim : ℕ → List Graph → Option (Graph × List Graph)
take_victim keep [] = none
take_victim keep (g ∷ gs) = or_this keep g gs (take_victim keep gs)

abbrev pub drop_victim :
    (List Graph → List Graph × List Graph)
    → List Graph
    → Option (Graph × List Graph)
    → List Graph × List Graph
drop_victim next gs none = ([], gs)
drop_victim next gs (some (victim, rest)) =
    let (dropped, left) = next rest in (victim ∷ dropped, left)

-- `for len(c.open) > c.max`, on fuel: what is dropped, in order, and what stays.
unfoldable pub evict_loop : ℕ → ℕ → ℕ → List Graph → List Graph × List Graph
evict_loop max keep zero gs = ([], gs)
evict_loop max keep (suc fuel) gs =
    let round = drop_victim (evict_loop max keep fuel) gs (take_victim keep gs) in
    if ltb max (length gs) then round else ([], gs)

-- Every round takes one graph away, so there are no more rounds than graphs.
unfoldable pub evict : ℕ → GraphCache → List Graph × GraphCache
evict keep c =
    let (dropped, left) = evict_loop c.max keep (length c.open_graphs) c.open_graphs in
    (dropped, record c { open_graphs = left })

unfoldable pub roots : GraphCache → List Text
roots c = map (λ g. g.root) c.open_graphs

-- How the opening of a graph ends: `graphForRoot` for a root that no graph serves yet.
unfoldable pub open_graph : ℕ → Graph → GraphCache → List Graph × GraphCache
open_graph keep g c = evict keep (add g c)
