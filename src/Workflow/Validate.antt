-- ===== src/Workflow/Validate.antt =====
-- `Validate` of internal/workflow/workflow.go and the checks that it makes of each node.
pub mod Spec
pub mod Nodes
pub mod Exact
use relay_flow.Prelude.{
  ℕ, String, Bool, true, false, not, Option, none, some, List, [], ◌∷◌, Result, ok, err, guard,
  each, ◌>>=◌, ◌>>◌, elem, is_empty, length, lookup, ◌==◌, ◌&&◌, ◌||◌, eqb, if◌then◌else◌,
}
use relay_flow.Workflow.{
  Node, Route, Workflow, all_routes, node_agent, node_hitl, start_node, end_node,
}
use relay_flow.Workflow.Name.{codes, matches_name}
use relay_flow.Workflow.Nudge.{Segment, literal, variable, segments, known_nudge_var}
use relay_flow.Workflow.Reach.{visited_from_start, first_unvisited}

pub data NodeError : Type 0 where
  auto_reject_not_hitl declares_work_fields declares_failure_routes declares_routes : NodeError
  start_targets : ℕ → NodeError
  bad_type no_agent no_description no_success_route no_failure_route failure_to_end : NodeError
  unknown_variable : List ℕ → NodeError

pub data ValidateError : Type 0 where
  bad_name no_repos no_start no_end : ValidateError
  duplicate_repo : String → ValidateError
  bad_node : String → NodeError → ValidateError
  targets_start : String → ValidateError
  missing_target : String → String → ValidateError
  unreachable : String → ValidateError
  walk_not_finished : ValidateError

abbrev has_auto_reject : Node → Bool
has_auto_reject n = n.auto_reject || n.auto_reject_set

abbrev has_work_fields : Node → Bool
has_work_fields n =
    not (n.type == "")
    || not (n.agent == "")
    || not (n.description == "")
    || not (n.nudge_prompt == "")

unfoldable pub validate_start : Node → Result NodeError (Unit {0})
validate_start n = do
  guard (not (has_auto_reject n)) auto_reject_not_hitl
  guard (not (has_work_fields n)) declares_work_fields
  guard (is_empty n.on_failure) declares_failure_routes
  guard (eqb (length n.on_success) 1) (start_targets (length n.on_success))

unfoldable pub validate_end : Node → Result NodeError (Unit {0})
validate_end n = do
  guard (not (has_auto_reject n)) auto_reject_not_hitl
  guard (not (has_work_fields n)) declares_work_fields
  guard (is_empty n.on_success && is_empty n.on_failure) declares_routes

abbrev check_segment : Segment → Result NodeError (Unit {0})
check_segment (literal c) = ok tt
check_segment (variable v) = guard (known_nudge_var v) (unknown_variable v)

unfoldable pub validate_work_node : Node → Result NodeError (Unit {0})
validate_work_node n = do
  guard (n.type == node_agent || n.type == node_hitl) bad_type
  guard (not (not (n.type == node_hitl) && has_auto_reject n)) auto_reject_not_hitl
  guard (not (n.agent == "")) no_agent
  guard (not (n.description == "")) no_description
  guard (not (is_empty n.on_success)) no_success_route
  guard (not (is_empty n.on_failure)) no_failure_route
  each (λ r. guard (not (r.target == end_node)) failure_to_end) n.on_failure
  each check_segment (segments (codes n.nudge_prompt))

-- An error of a node under the name of the node.
abbrev at_node : String → Result NodeError (Unit {0}) → Result ValidateError (Unit {0})
at_node name (ok tt) = ok tt
at_node name (err e) = err (bad_node name e)

-- The loop over the repos; `seen` is the set of the names met so far.
unfoldable pub check_repos : List String → List String → Result ValidateError (Unit {0})
check_repos seen [] = ok tt
check_repos seen (r ∷ rs) =
    guard (not (elem r seen)) (duplicate_repo r) >> check_repos (r ∷ seen) rs

abbrev check_work_node : String × Node → Result ValidateError (Unit {0})
check_work_node (name, n) =
    if name == start_node || name == end_node then ok tt else at_node name (validate_work_node n)

abbrev has_node : List (String × Node) → String → Bool
has_node nodes name = elim (lookup name nodes) [ none ↦ false | some n ↦ true ]

abbrev check_route : List (String × Node) → String → Route → Result ValidateError (Unit {0})
check_route nodes name r = do
  guard (not (r.target == start_node)) (targets_start name)
  guard (has_node nodes r.target) (missing_target name r.target)

abbrev check_routes : List (String × Node) → String × Node → Result ValidateError (Unit {0})
check_routes nodes (name, n) = each (check_route nodes name) (all_routes n)

abbrev check_required :
    ValidateError
    → String
    → (Node → Result NodeError (Unit {0}))
    → List (String × Node)
    → Result ValidateError (Unit {0})
check_required missing name check nodes = elim (lookup name nodes) [
  | none ↦ err missing
  | some n ↦ at_node name (check n)
]

unfoldable pub validate_reachability : List (String × Node) → Result ValidateError (Unit {0})
validate_reachability nodes = elim (visited_from_start nodes) [
  | none ↦ err walk_not_finished
  | some visited ↦ elim (first_unvisited visited nodes) [
    | none ↦ ok tt
    | some name ↦ err (unreachable name)
  ]
]

unfoldable pub validate : Workflow → Result ValidateError (Unit {0})
validate w = do
  guard (matches_name (codes w.name)) bad_name
  guard (not (is_empty w.repos)) no_repos
  check_repos [] w.repos
  check_required no_start start_node validate_start w.nodes
  check_required no_end end_node validate_end w.nodes
  each check_work_node w.nodes
  each (check_routes w.nodes) w.nodes
  validate_reachability w.nodes
