-- ===== src/Workflow.antt =====
-- internal/workflow/workflow.go: the workflow definition, its nodes and routes, and what the
-- interpreter asks of it. `Nodes`, a Go map, is the list of its entries; where code ranges over
-- it, the model goes through the entries in list order.
pub mod Name
pub mod Nudge
pub mod Health
pub mod Reach
pub mod Validate
pub mod Report
pub mod Accepted
use relay_flow.Prelude.{
  ℕ, String, Bool, true, false, Option, none, some, List, [], ◌∷◌, ◌++◌, map, Result, ok, err,
  lookup, ◌==◌, length, if◌then◌else◌,
}
use relay_flow.Config.{RawValues}

-- `NodeType` and `Outcome` are string types in the source, and a decoded value may hold any text.
abbrev pub node_agent : String
node_agent = "agent"

abbrev pub node_hitl : String
node_hitl = "hitl"

abbrev pub outcome_success : String
outcome_success = "success"

abbrev pub outcome_failure : String
outcome_failure = "failure"

abbrev pub start_node : String
start_node = "start"

abbrev pub end_node : String
end_node = "end"

-- `unset` is the empty status of a value that no loader has assigned one.
pub data HealthStatus : Type 0 where
  unset healthy blocked unverified outdated : HealthStatus

pub record Route : Type 0 where
  pub target : String
  pub when : String

pub record Node : Type 0 where
  pub type : String
  pub agent : String
  pub description : String
  pub nudge_prompt : String
  pub auto_reject : Bool
  pub task_config : RawValues
  pub on_success : List Route
  pub on_failure : List Route
  pub auto_reject_set : Bool

-- What a Go map yields for a key that is not there.
abbrev pub zero_node : Node
zero_node = record {
  type = "";
  agent = "";
  description = "";
  nudge_prompt = "";
  auto_reject = false;
  task_config = RawValues.end;
  on_success = [];
  on_failure = [];
  auto_reject_set = false;
}

pub record Workflow : Type 0 where
  pub name : String
  pub repos : List String
  pub cleanup_runner_on_end : Bool
  pub task_config : RawValues
  pub nodes : List (String × Node)
  pub status : HealthStatus
  pub status_reason : String
  pub repair_command : String

-- `Workflow{}`
abbrev pub zero_workflow : Workflow
zero_workflow = record {
  name = "";
  repos = [];
  cleanup_runner_on_end = false;
  task_config = RawValues.end;
  nodes = [];
  status = unset;
  status_reason = "";
  repair_command = "";
}

-- The errors of the queries below, with the names that their texts quote.
pub data QueryError : Type 0 where
  no_node : String → QueryError
  bad_start : ℕ → QueryError
  unknown_outcome : String → QueryError

abbrev pub all_routes : Node → List Route
all_routes n = n.on_success ++ n.on_failure

abbrev pub targets : List Route → List String
targets = map (λ r. r.target)

abbrev single_target : List Route → Result QueryError String
single_target (r ∷ []) = ok r.target
single_target rs = err (bad_start (length rs))

unfoldable pub start_target : Workflow → Result QueryError String
start_target w = elim (lookup start_node w.nodes) [
  | none ↦ err (no_node start_node)
  | some n ↦ single_target n.on_success
]

unfoldable pub routes : Workflow → String → String → Result QueryError (List Route)
routes w node outcome = elim (lookup node w.nodes) [
  | none ↦ err (no_node node)
  | some n ↦
      if outcome == outcome_success
      then ok n.on_success
      else if outcome == outcome_failure
      then ok n.on_failure
      else err (unknown_outcome outcome)
]
