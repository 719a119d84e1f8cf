-- ===== src/Workflow/Validate/Spec.antt =====
-- What a valid workflow is, said without the code of `Validate` in internal/workflow/workflow.go.
use relay_flow.Prelude.{String, false, some, List, [], ◌∷◌, Memᴰ, lookup, ◌≡◌, ◌≢◌, ◌⊎◌}
use relay_flow.Workflow.{
  Node, Route, Workflow, all_routes, node_agent, node_hitl, start_node, end_node,
}
use relay_flow.Workflow.Name.{codes, IsName}
use relay_flow.Workflow.Nudge.{Segment, segments}
use relay_flow.Workflow.Nudge.Laws.{IsKnown}
use relay_flow.Workflow.Reach.Walk.{Reachable}

abbrev pub IsDistinct : List String → Type 0
IsDistinct [] = Unit
IsDistinct (x ∷ xs) = (¬ Memᴰ x xs) × IsDistinct xs

-- A reserved node configures no work.
pub record IsReserved (n : Node) : Type 0 where
  pub no_auto_reject : (n.auto_reject ≡ false) × (n.auto_reject_set ≡ false)
  pub no_work : (n.type ≡ "") × (n.agent ≡ "") × (n.description ≡ "") × (n.nudge_prompt ≡ "")

pub record IsStart (n : Node) : Type 0 where
  pub reserved : IsReserved n
  pub one_target : (r : Route) × (n.on_success ≡ r ∷ [])
  pub no_failure : n.on_failure ≡ []

pub record IsEnd (n : Node) : Type 0 where
  pub reserved : IsReserved n
  pub no_routes : (n.on_success ≡ []) × (n.on_failure ≡ [])

pub record IsWorkNode (n : Node) : Type 0 where
  pub typed : (n.type ≡ node_agent) ⊎ (n.type ≡ node_hitl)
  pub auto_reject_hitl : n.type ≢ node_hitl → (n.auto_reject ≡ false) × (n.auto_reject_set ≡ false)
  pub has_agent : n.agent ≢ ""
  pub has_description : n.description ≢ ""
  pub succeeds : n.on_success ≢ []
  pub fails : n.on_failure ≢ []
  pub no_failed_end : (r : Route) → Memᴰ r n.on_failure → r.target ≢ end_node
  pub known_variables : (g : Segment) → Memᴰ g (segments (codes n.nudge_prompt)) → IsKnown g

pub record IsValid (w : Workflow) : Type 0 where
  pub named : IsName (codes w.name)
  pub has_repos : w.repos ≢ []
  pub distinct_repos : IsDistinct w.repos
  pub start : (n : Node) × (lookup start_node w.nodes ≡ some n) × IsStart n
  pub end : (n : Node) × (lookup end_node w.nodes ≡ some n) × IsEnd n
  pub work :
      (name : String) (n : Node)
      → Memᴰ (name, n) w.nodes
      → name ≢ start_node
      → name ≢ end_node
      → IsWorkNode n
  pub routed :
      (name : String) (n : Node) (r : Route)
      → Memᴰ (name, n) w.nodes
      → Memᴰ r (all_routes n)
      → (r.target ≢ start_node) × ((m : Node) × (lookup r.target w.nodes ≡ some m))
  pub reached : (name : String) (n : Node) → Memᴰ (name, n) w.nodes → Reachable w.nodes name
