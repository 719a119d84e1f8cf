-- ===== src/Interpreter.antt =====
-- `runGraph` of internal/execution/goworkflows/interpreter.go: the interpreter of a workflow's graph.
-- An activity is retried until it succeeds, so the model logs each activity once, in the order in
-- which they are scheduled; the times that they carry are left out. What arrives while a visit waits
-- for its report is a list of signals.
pub mod Rounds
pub mod Duplicates
pub mod Retry
use relay_flow.Prelude.{
  ℕ, ◌+◌, String, Bool, true, false, not, Option, none, some, List, [], ◌∷◌, ◌++◌, Result, ok, err,
  elem, lookup, ltb, ◌==◌, ◌&&◌, ◌||◌, if◌then◌else◌,
}
use relay_flow.Run.{State, Start}
use relay_flow.Workflow.{
  Node, Workflow, zero_node, start_target, start_node, end_node, outcome_failure,
}
use relay_flow.Workflow.Report.{Report, none_text, validate_report}
use relay_flow.Projection.Steps.{StepStatus}

-- `reportSignal`
pub record ReportSignal : Type 0 where
  pub report_id : String
  pub node : String
  pub node_visit_id : String
  pub report : Report

-- What `Select` receives; a cancellation is the end of the context.
pub data Signal : Type 0 where
  reports : ReportSignal → Signal
  reconciles cancels : Signal

-- One entry into a node.
pub record Visit : Type 0 where
  pub node : String
  pub id : String
  pub sequence : ℕ
  pub parent : ℕ
  pub depth : ℕ

pub data Activity : Type 0 where
  ensure_mailboxes prepare_restart validate_agents ensure_environment : Activity
  apply_task_config : String → Activity
  load_node_runtime : String → Activity
  update_runtime_visit : String → String → Activity
  ensure_node_runtime : String → String → Activity
  update_node : String → String → Activity
  update_state : State → Activity
  record_report : String → String → Activity
  upsert_step : Visit → StepStatus → String → String → Activity
  comment_summary : String → Activity
  comment_feedback : String → String → Activity
  complete_mailbox : String → Activity
  checkpoint_runtime : String → Activity
  set_environment_completed cleanup_run : Activity
  finalize_runtimes : Bool → Activity

-- The interpreter in its wait: the visit, `seenReportIDs`, and for each node the sequence and depth
-- of its last step (`lastStepByNode`, `lastDepthByNode`).
pub record Waiting : Type 0 where
  pub visit : Visit
  pub seen : List String
  pub last_steps : List (String × (ℕ × ℕ))
  pub log : List Activity

-- How far a run has come.
pub data Progress : Type 0 where
  waits : Waiting → Progress
  completes : List Activity → Progress
  stops : List Activity → Progress
  fails : List Activity → Progress

abbrev lifecycle : String → ℕ → Visit
lifecycle node sequence = record {
  node = node;
  id = "";
  sequence = sequence;
  parent = 0;
  depth = 1;
}

-- The part of `runGraph` before the first node.
abbrev pub start_activities : Start → String → List Activity
start_activities s target =
    ensure_mailboxes
    ∷ ((if ltb 1 s.attempt_id then prepare_restart ∷ [] else [])
        ++ (validate_agents
            ∷ upsert_step (lifecycle start_node 0) StepStatus.running "" ""
            ∷ apply_task_config start_node
            ∷ ensure_environment
            ∷ upsert_step (lifecycle start_node 0) StepStatus.succeeded "" target
            ∷ []))

-- The entry of a node, up to the wait for its report.
abbrev pub entry_activities : Visit → List Activity
entry_activities v =
    upsert_step v StepStatus.running "" ""
    ∷ load_node_runtime v.node
    ∷ update_runtime_visit v.node v.id
    ∷ apply_task_config v.node
    ∷ ensure_environment
    ∷ ensure_node_runtime v.node v.id
    ∷ update_node v.node v.id
    ∷ update_state State.waiting
    ∷ []

-- The part of `runGraph` after the loop; `finalPolicy` keeps terminals unless the runner is cleaned up.
abbrev pub end_activities : Start → ℕ → List Activity
end_activities s sequence =
    upsert_step (lifecycle end_node sequence) StepStatus.running "" ""
    ∷ apply_task_config end_node
    ∷ set_environment_completed
    ∷ ((if s.workflow.cleanup_runner_on_end then cleanup_run ∷ [] else [])
        ++ (finalize_runtimes
              (s.runtime.keep_terminals_alive && not s.workflow.cleanup_runner_on_end)
            ∷ upsert_step (lifecycle end_node sequence) StepStatus.succeeded "" ""
            ∷ update_state State.completed
            ∷ []))

-- The status and the message of the step that a report ends.
abbrev step_status : Report → StepStatus
step_status r = if r.status == outcome_failure then StepStatus.failed else StepStatus.succeeded

abbrev step_message : Report → String
step_message r =
    if r.status == outcome_failure && not (r.summary.issues_discovered == none_text)
    then r.summary.issues_discovered
    else r.summary.completed

-- The ordered transition after an accepted report.
abbrev pub transition_activities : Visit → String → Report → List Activity
transition_activities v report_id r =
    record_report v.id report_id
    ∷ upsert_step v (step_status r) (step_message r) r.next_step
    ∷ comment_summary v.node
    ∷ ((if r.next_step == end_node then [] else comment_feedback v.node r.next_step ∷ [])
        ++ (complete_mailbox v.node ∷ checkpoint_runtime v.node ∷ []))

abbrev pub visit_of : (ℕ → String) → List (String × (ℕ × ℕ)) → String → ℕ → Visit
visit_of ids lasts node sequence = elim (lookup node lasts) [
  | none ↦ record { node = node; id = ids sequence; sequence = sequence; parent = 0; depth = 1 }
  | some p ↦ record {
    node = node;
    id = ids sequence;
    sequence = sequence;
    parent = p.0;
    depth = p.1 + 1;
  }
]

-- The head of the loop: `end` leaves it, and any other node is entered. `ids` are the fresh visit
-- identities, in the order of the entries.
unfoldable pub enter :
    (ℕ → String)
    → Start
    → String
    → ℕ
    → List String
    → List (String × (ℕ × ℕ))
    → List Activity
    → Progress
enter ids s node sequence seen lasts log =
    if node == end_node
    then completes (log ++ end_activities s (sequence + 1))
    else (let v = visit_of ids lasts node (sequence + 1) in
        waits (record {
          visit = v;
          seen = seen;
          last_steps = (node, (v.sequence, v.depth)) ∷ lasts;
          log = log ++ entry_activities v;
        }))

-- A report for the visit. The snapshot of the workflow validates it once more.
unfoldable pub deliver : (ℕ → String) → Start → Waiting → ReportSignal → Progress
deliver ids s w g = elim (validate_report s.workflow w.visit.node g.report) [
  | err e ↦ fails w.log
  | ok u ↦
      enter ids s g.report.next_step w.visit.sequence w.seen w.last_steps
        (w.log ++ transition_activities w.visit g.report_id g.report)
]

abbrev pub is_for : ReportSignal → Visit → Bool
is_for g v = g.node == v.node && g.node_visit_id == v.id

abbrev pub sees : Waiting → String → Waiting
sees w id = record w { seen = id ∷ w.seen }

-- One round of the loop that waits.
unfoldable pub receive : (ℕ → String) → Start → Waiting → Signal → Progress
receive ids s w cancels = stops w.log
receive ids s w reconciles =
    waits (record w { log = w.log ++ (ensure_node_runtime w.visit.node w.visit.id ∷ []) })
receive ids s w (reports g) =
    if elem g.report_id w.seen
    then waits w
    else if is_for g w.visit
    then deliver ids s (sees w g.report_id) g
    else waits (sees w g.report_id)

abbrev pub advance : (ℕ → String) → Start → Progress → Signal → Progress
advance ids s (waits w) g = receive ids s w g
advance ids s p g = p

unfoldable pub run_signals : (ℕ → String) → Start → Progress → List Signal → Progress
run_signals ids s p [] = p
run_signals ids s p (g ∷ gs) = run_signals ids s (advance ids s p g) gs

-- `runGraph`, on the signals that arrive.
unfoldable pub run_graph : (ℕ → String) → Start → List Signal → Progress
run_graph ids s gs = elim (start_target s.workflow) [
  | err e ↦ fails (
      ensure_mailboxes
      ∷ ((if ltb 1 s.attempt_id then prepare_restart ∷ [] else []) ++ (validate_agents ∷ [])))
  | ok target ↦ run_signals ids s (enter ids s target 0 [] [] (start_activities s target)) gs
]
