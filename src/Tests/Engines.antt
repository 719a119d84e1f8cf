-- ===== src/Tests/Engines.antt =====
-- An executor over a small workflow library: what it has accepted is a list of texts, and its
-- executions and their events are part of its state.
use relay_flow.Prelude.{String, true, false, none, some, List, [], ◌∷◌, ok, err, ◌≡◌, refl, elem}
use relay_flow.Workflow.{routes}
use relay_flow.Workflow.Report.{validate_report}
use relay_flow.Run.{running, Run}
use relay_flow.Projection.Table.{find, affected, update_where, insert_new, select, upsert}
use relay_flow.Projection.Runs.{
  get, insert_start, begin_cancellation, node_updated, update_node_rows, state_updated,
  update_state_rows,
}
use relay_flow.Projection.Runtimes.{
  NodeRuntime, has_processed_report, update_node_runtime, update_node_runtime_visit,
  clear_node_runtime,
}
use relay_flow.Engine.Instances.{last_where, lookup_instance, workflow_of}
use relay_flow.Projection.Db.{
  Op, inserts, updates_node, updates_runtime, apply_all, empty_db, update_node, update_state_cas,
}
use relay_flow.Engine.{
  Instance, Event, started, cancel_requested, finished, Outside, World, run_not_found,
}
use relay_flow.Engine.Ensure.{filled, ensure_run}
use relay_flow.Engine.Ensure.Starts.{Ensures, ensure_run-Ensures}
use relay_flow.Engine.Reports.{ReportRequest, submit_report, submit_known}
use relay_flow.Engine.Reports.Answers.{Answer}
use relay_flow.Engine.Reports.Exact.{Decides, submit_report-Answer}
use relay_flow.Engine.Cancel.{
  cancel_run, reconcile_cancellation, request_cancellation, reconcile_finished, read_events,
  finalize_cancellation_effects, conclude, finalize_node_runtimes, clear_all, list_node_runtimes,
  close_terminals,
}
use relay_flow.Engine.Cancel.Decides.{Cancels, cancel_run-Cancels}
use relay_flow.Engine.Details.{get_run_detail}
use relay_flow.Engine.Details.Shows.{Answers, get_run_detail-Answers}
use relay_flow.Tests.Workflows.{demo, report_to_review}
use relay_flow.Tests.Rows.{start_of}

pub record Library : Type 0 where
  pub executions : List Instance
  pub events : List Event
  pub log : List String

abbrev note : String → Library → Library
note text s = record s { log = text ∷ s.log }

abbrev library : Outside Library
library = record {
  instances = λ s. s.executions;
  history = λ i s. ok s.events;
  cancel_pending = λ i s. ok (elem "cancel" s.log);
  create_instance = λ start s. (
    ok tt,
    record s {
      executions = record { id = start.id; execution = "e"; active = true } ∷ s.executions;
    },
  );
  signal = λ id x s. (ok tt, note "signal" s);
  cancel_instance = λ i s. (ok tt, note "cancel" s);
  decode = λ text. ok (start_of "a");
  find_terminal = λ id title s. false;
  close_terminal = λ id title s. (ok tt, note "close" s);
  comment = λ repo key body marker s. (ok tt, note body s);
  repo_path = λ name. some "/app";
  logical_run_id = λ id. id;
}

abbrev world : List Op → Library → World Library
world ops s = record {
  db = apply_all ops empty_db;
  snapshots = ("a", demo) ∷ [];
  outside = s;
  now = 9;
  runtime = record { keep_terminals_alive = true; keep_sessions_alive = true };
}

abbrev idle : Library
idle = record { executions = []; events = []; log = [] }

abbrev busy : Library
busy = record idle { executions = record { id = "a"; execution = "e"; active = true } ∷ [] }

-- The execution was canceled before it finished.
abbrev over : Library
over = record idle {
  executions = record { id = "a"; execution = "e"; active = false } ∷ [];
  events = started [] ∷ cancel_requested ∷ finished 5 ∷ [];
}

abbrev at_build : List Op
at_build = inserts (start_of "a") 1 ∷ updates_node "a" running "build" "v1" 2 ∷ []

abbrev at_terminal : NodeRuntime
at_terminal = record {
  run_id = "a";
  node = "build";
  node_visit_id = "v1";
  session_id = "s";
  terminal_id = "t";
  updated_at = 3;
}

abbrev request : ReportRequest
request = record { run_id = "a"; node = "build"; report_id = "r1"; report = report_to_review }

submit_report-Answer_example :
    Answer library request
      (world at_build busy)
      (submit_report library request (world at_build busy))
    × Decides library request
        (world at_build busy)
        (submit_report library request (world at_build busy))
submit_report-Answer_example = submit_report-Answer library request (world at_build busy)

ensure_run-Ensures_example :
    Ensures library
      (filled library (start_of "a"))
      (world [] idle)
      (ensure_run library (start_of "a") (world [] idle))
ensure_run-Ensures_example = ensure_run-Ensures library (start_of "a") (world [] idle)

-- A node with a terminal, under the policy that keeps none.
abbrev unkept : World Library
unkept = record (world (updates_runtime at_terminal 3 ∷ at_build) over) {
  runtime = record { keep_terminals_alive = false; keep_sessions_alive = false };
}

cancel_run-Cancels_example :
    ((r : Run)
      → get "a" unkept.db.runs ≡ some r
      → Cancels library "stop" r unkept (cancel_run library "a" "stop" unkept))
    × (get "a" unkept.db.runs ≡ none
        → (cancel_run library "a" "stop" unkept).0 ≡ err (run_not_found "a"))
cancel_run-Cancels_example = cancel_run-Cancels library "a" "stop" unkept

-- The terminal is closed before the comment is posted.
closes_first :
    (cancel_run library "a" "stop" unkept).1.outside.log ≡ "Run canceled: stop" ∷ "close" ∷ []
unfolding cancel_run get find begin_cancellation update_where apply_all update_node node_updated
    affected insert_start insert_new update_node_rows reconcile_cancellation lookup_instance
    last_where reconcile_finished read_events finalize_cancellation_effects conclude
    finalize_node_runtimes clear_all list_node_runtimes update_state_cas state_updated
    update_state_rows select update_node_runtime upsert close_terminals clear_node_runtime
    update_node_runtime_visit
closes_first = refl

-- The comment is posted, with the reason; the terminals are kept.
cancels_over :
    (cancel_run library "a" "stop" (world at_build over)).1.outside.log ≡ "Run canceled: stop" ∷ []
unfolding cancel_run get find begin_cancellation update_where apply_all update_node node_updated
    affected insert_start insert_new update_node_rows reconcile_cancellation lookup_instance
    last_where reconcile_finished read_events finalize_cancellation_effects conclude
    finalize_node_runtimes clear_all list_node_runtimes update_state_cas state_updated
    update_state_rows select
cancels_over = refl

-- A running execution is asked to stop.
cancels_busy : (cancel_run library "a" "stop" (world at_build busy)).1.outside.log ≡ "cancel" ∷ []
unfolding cancel_run get find begin_cancellation update_where apply_all update_node node_updated
    affected insert_start insert_new update_node_rows reconcile_cancellation lookup_instance
    last_where request_cancellation
cancels_busy = refl

-- The report is sent on.
delivers : (submit_report library request (world at_build busy)).1.outside.log ≡ "signal" ∷ []
unfolding submit_report get find apply_all update_node node_updated affected insert_start insert_new
    update_node_rows update_where submit_known has_processed_report workflow_of validate_report
    routes
delivers = refl

get_run_detail-Answers_example :
    ((r : Run)
      → get "a" (world at_build busy).db.runs ≡ some r
      → Answers "a" r (world at_build busy) (get_run_detail library "a" (world at_build busy)))
    × (get "a" (world at_build busy).db.runs ≡ none
        → get_run_detail library "a" (world at_build busy)
          ≡ some (err (run_not_found "a"), world at_build busy))
get_run_detail-Answers_example = get_run_detail-Answers library "a" (world at_build busy)
