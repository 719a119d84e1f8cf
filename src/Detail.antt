-- ===== src/Detail.antt =====
-- internal/run/detail.go: the details of a run as they are shown, and the pending steps that
-- `AddPendingNodes` adds after the recorded ones. A sequence is far below 2 ^ 63.
pub mod Rows
pub mod Counts
pub mod Pending
pub mod Extends
pub mod Derive
pub mod Progress
pub mod Order
use relay_flow.Prelude.{
  ℕ, zero, suc, String, Bool, true, false, not, Option, none, some, List, [], ◌∷◌, ◌++◌, map,
  lookup, elem, length, ltb, ◌==◌, ◌&&◌, ◌||◌, if◌then◌else◌,
}
use mathlib.Core.List.{reverse}
use relay_flow.Workflow.{Route, Node, Workflow, all_routes, targets, start_node, end_node}
use relay_flow.Run.{State, Run}
use relay_flow.Run.States.{same_state}
use relay_flow.Projection.Steps.{StepStatus, StepEntry}

pub record RunConditions : Type 0 where
  pub node_running : Bool
  pub waiting : Bool
  pub retry_scheduled : Bool
  pub completed : Bool
  pub failed : Bool
  pub canceled : Bool

pub record RunProgress : Type 0 where
  pub completed : ℕ
  pub total : ℕ
  pub pending : ℕ

-- A sum of durations, which an int64 holds, is its pattern of 64 bits.
pub record ResourceDuration : Type 0 where
  pub known : Bool
  pub runner : ℕ
  pub task_system : ℕ
  pub harness : ℕ
  pub other : ℕ

pub record RunDetail : Type 0 where
  pub run : Run
  pub created_at : Option ℕ
  pub conditions : RunConditions
  pub progress : RunProgress
  pub resources_duration : ResourceDuration
  pub steps : List StepEntry

abbrev no_conditions : RunConditions
no_conditions = record {
  node_running = false;
  waiting = false;
  retry_scheduled = false;
  completed = false;
  failed = false;
  canceled = false;
}

abbrev pub no_resources : ResourceDuration
no_resources = record { known = false; runner = 0; task_system = 0; harness = 0; other = 0 }

-- `NewRunDetail`
abbrev pub new_run_detail : Run → RunDetail
new_run_detail r = record {
  run = r;
  created_at = none;
  conditions = no_conditions;
  progress = record { completed = 0; total = 0; pending = 0 };
  resources_duration = no_resources;
  steps = [];
}

abbrev pub is_pending : StepStatus → Bool
is_pending StepStatus.pending = true
is_pending _ = false

-- The steps that were reached.
unfoldable pub reached : List StepEntry → List StepEntry
reached [] = []
reached (s ∷ ss) = let rest = reached ss in if is_pending s.status then rest else s ∷ rest

-- `actual`, as the list of its keys.
abbrev pub nodes_of : List StepEntry → List String
nodes_of = map (λ s. s.node)

-- `maxSequence + 1` after the loop.
abbrev pub after : ℕ → StepEntry → ℕ
after n s = if ltb s.sequence n then n else suc s.sequence

unfoldable pub next_sequence : ℕ → List StepEntry → ℕ
next_sequence n [] = n
next_sequence n (s ∷ ss) = next_sequence (after n s) ss

-- `currentStep` after the loop: the first of those with the greatest sequence.
abbrev pub later : Option StepEntry → StepEntry → StepEntry
later none s = s
later (some c) s = if ltb c.sequence s.sequence then s else c

unfoldable pub current_step : Option StepEntry → List StepEntry → Option StepEntry
current_step c [] = c
current_step c (s ∷ ss) = current_step (some (later c s)) ss

abbrev pub node_of : Option StepEntry → String
node_of none = ""
node_of (some s) = s.node

-- `current`
abbrev pub current_node : Run → Option StepEntry → String
current_node r c = if r.current_node == "" then node_of c else r.current_node

-- The current step has selected a route.
abbrev pub is_routed : String → Option StepEntry → Bool
is_routed current none = false
is_routed current (some s) = s.node == current && not (s.route == "")

-- What `addCandidate` is called with, in order.
abbrev pub node_targets : Option Node → List String
node_targets none = []
node_targets (some n) = targets (all_routes n)

abbrev pub route_of : Option StepEntry → String
route_of none = ""
route_of (some s) = s.route

unfoldable pub proposed : Workflow → String → Option StepEntry → List String
proposed wf current c =
    if is_routed current c then route_of c ∷ [] else node_targets (lookup current wf.nodes)

-- `addCandidate`, over the targets in order; `candidates` are in the order of their insertion.
unfoldable pub add_candidates : List String → List String → List String → List String
add_candidates visited candidates [] = candidates
add_candidates visited candidates (target ∷ ts) =
    add_candidates visited
      (if target == "" || elem target visited || elem target candidates
        then candidates
        else candidates ++ (target ∷ []))
      ts

-- The rows appended so far, the last one first, and `maxSequence + 1`. The keys of `added` are the
-- nodes of the rows.
pub record Added : Type 0 where
  pub rows : List StepEntry
  pub next : ℕ

abbrev pub added_nodes : Added → List String
added_nodes a = nodes_of a.rows

abbrev pub row_type : String → Node → String
row_type name n = if name == start_node || name == end_node then "lifecycle" else n.type

abbrev pub pending_row : String → ℕ → String → Node → StepEntry
pending_row run_id sequence name n = record {
  run_id = run_id;
  sequence = sequence;
  node = name;
  node_visit_id = "";
  node_type = row_type name n;
  parent_sequence = 0;
  depth = 1;
  status = StepStatus.pending;
  started_at = none;
  finished_at = none;
  duration = 0;
  duration_known = false;
  message = "";
  route = "";
  runtime = "";
  resource = "";
}

abbrev pub push : String → String → Node → Added → Added
push run_id name n a = record {
  rows = pending_row run_id a.next name n ∷ a.rows;
  next = suc a.next;
}

-- The target to go on with.
abbrev pub single : List Route → Option String
single (r ∷ []) = some r.target
single _ = none

abbrev pub follows : Bool → String → Node → Option String
follows follow_single name n =
    if not follow_single || name == end_node then none else single (all_routes n)

module _ (run_id : String) (wf : Workflow) (visited : List String) where
  -- `if name == "" || actual[name] || added[name]`
  abbrev pub is_skipped : String → Added → Bool
  is_skipped name a = name == "" || elem name visited || elem name (added_nodes a)

  -- `appendPending`; `none` is a want of fuel.
  unfoldable pub append_pending : ℕ → String → Bool → Added → Option Added
  append_pending zero name follow_single a = none
  append_pending (suc fuel) name follow_single a = elim (is_skipped name a) [
    | true ↦ some a
    | false ↦ elim (lookup name wf.nodes) [
      | none ↦ some a
      | some n ↦ elim (follows follow_single name n) [
        | none ↦ some (push run_id name n a)
        | some target ↦ append_pending fuel target true (push run_id name n a)
      ]
    ]
  ]

  -- The loop over the candidates.
  unfoldable pub append_all : ℕ → Bool → List String → Added → Option Added
  append_all fuel follow_single [] a = some a
  append_all fuel follow_single (c ∷ cs) a = elim (append_pending fuel c follow_single a) [
    | none ↦ none
    | some b ↦ append_all fuel follow_single cs b
  ]

abbrev pub with_rows : RunDetail → Option Added → Option RunDetail
with_rows d none = none
with_rows d (some a) = some (record d { steps = d.steps ++ reverse a.rows })

-- The part after `current` is known; the fuel is one unit more than there are nodes.
abbrev pub add_after : RunDetail → Workflow → List StepEntry → String → Option RunDetail
add_after d wf seen current =
    let c = current_step none seen in
    with_rows d (
      append_all d.run.id wf (nodes_of seen) (suc (length wf.nodes)) (is_routed current c)
        (add_candidates (nodes_of seen) [] (proposed wf current c))
        (record { rows = []; next = next_sequence 0 seen }))

-- `AddPendingNodes`
unfoldable pub add_pending_nodes : RunDetail → Workflow → Option RunDetail
add_pending_nodes d wf =
    let seen = reached d.steps in
    let current = current_node d.run (current_step none seen) in
    if same_state d.run.state State.completed
    then some d
    else if current == ""
    then some d
    else add_after d wf seen current
