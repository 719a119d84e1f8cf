-- ===== src/Workflow/Reach.antt =====
-- `validateReachability` of internal/workflow/workflow.go: a breadth-first walk from `start` over
-- the routes. `visited` is the list of the keys set to true.
pub mod Walk
use relay_flow.Prelude.{
  ℕ, zero, suc, ◌+◌, String, Bool, true, false, Option, none, some, List, [], ◌∷◌, ◌++◌, Result, ok,
  err, guard, ◌>>=◌, ◌>>◌, elem, length, ◌==◌, if◌then◌else◌,
}
use relay_flow.Workflow.{Node, Workflow, all_routes, targets, start_node}

-- `adj[name]`, filled from all the entries.
unfoldable pub adj : List (String × Node) → String → List String
adj [] name = []
adj ((j, n) ∷ nodes) name =
    let rest = adj nodes name in if j == name then targets (all_routes n) ++ rest else rest

-- The loop over the queue. Each round takes one entry off the queue.
unfoldable pub walk : ℕ → (String → List String) → List String → List String → Option (List String)
walk fuel edges visited [] = some visited
walk zero edges visited (cur ∷ queue) = none
walk (suc fuel) edges visited (cur ∷ queue) = elim (elem cur visited) [
  | true ↦ walk fuel edges visited queue
  | false ↦ walk fuel edges (cur ∷ visited) (queue ++ edges cur)
]

-- The number of edges, and the entry of `start`.
unfoldable pub edge_count : List (String × Node) → ℕ
edge_count [] = 0
edge_count ((j, n) ∷ nodes) = length (targets (all_routes n)) + edge_count nodes

unfoldable pub visited_from_start : List (String × Node) → Option (List String)
visited_from_start nodes = walk (1 + edge_count nodes) (adj nodes) [] (start_node ∷ [])

-- The first entry that the walk has not visited.
unfoldable pub first_unvisited : List String → List (String × Node) → Option String
first_unvisited visited [] = none
first_unvisited visited ((name, n) ∷ nodes) =
    let rest = first_unvisited visited nodes in if elem name visited then rest else some name
