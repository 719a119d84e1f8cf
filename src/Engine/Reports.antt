-- ===== src/Engine/Reports.antt =====
-- `SubmitReport` of internal/execution/goworkflows/engine.go.
pub mod Answers
pub mod Exact
use relay_flow.Prelude.{
  String, Bool, true, false, not, Option, none, some, List, Result, ok, err, ◌==◌, ◌&&◌,
  if◌then◌else◌,
}
use relay_flow.Workflow.{Workflow}
use relay_flow.Workflow.Report.{Report, ReportError, validate_report}
use relay_flow.Run.{Run}
use relay_flow.Run.States.{terminal_state}
use relay_flow.Projection.Runs.{get, find_by_logical_id}
use relay_flow.Projection.Runtimes.{has_processed_report}
use relay_flow.Engine.{
  Fault, Signal, reports, Outside, World, EngineError, run_not_found, invalid_report, signal_failed,
  outside_result,
}
use relay_flow.Engine.Instances.{workflow_of}

-- `run.ReportRequest` and `run.ReportAck`; an acknowledgement is always accepted.
pub record ReportRequest : Type 0 where
  pub run_id : String
  pub node : String
  pub report_id : String
  pub report : Report

pub data Ack : Type 0 where
  fresh duplicate : Ack

abbrev pub Submitted : Type 0 → Type 0
Submitted S = Result EngineError Ack × World S

-- The report is about the node where the run is.
abbrev pub is_current : Run → ReportRequest → Bool
is_current r q =
    not (r.current_node_visit_id == "")
    && (q.node == r.current_node)
    && not (terminal_state r.state)

module _ {S : Type 0} (o : Outside S) where
  abbrev pub delivered : Result Fault (Unit {0}) × World S → Submitted S
  delivered (ok _, w) = (ok fresh, w)
  delivered (err e, w) = (err (signal_failed e), w)

  abbrev pub signal_of : Run → ReportRequest → Signal
  signal_of r q = reports q.report_id q.node r.current_node_visit_id q.report

  abbrev pub deliver : Run → ReportRequest → Result ReportError (Unit {0}) → World S → Submitted S
  deliver r q (err e) w = (err (invalid_report e), w)
  deliver r q (ok _) w = delivered (outside_result w (o.signal q.run_id (signal_of r q) w.outside))

  abbrev pub with_workflow :
      Run → ReportRequest → Result EngineError Workflow × World S → Submitted S
  with_workflow r q (err e, w) = (err e, w)
  with_workflow r q (ok v, w) = deliver r q (validate_report v q.node q.report) w

  unfoldable pub submit_known : Run → ReportRequest → World S → Submitted S
  submit_known r q w =
      if has_processed_report q.run_id q.report_id w.db.reports
      then (ok duplicate, w)
      else if not (is_current r q)
      then (ok duplicate, w)
      else with_workflow r q (workflow_of o q.run_id w)

  -- A request whose run has no row, with the latest attempt of its logical run.
  abbrev pub superseded : ReportRequest → Option Run → World S → Submitted S
  superseded q none w = (err (run_not_found q.run_id), w)
  superseded q (some latest) w =
      if latest.id == q.run_id then (err (run_not_found q.run_id), w) else (ok duplicate, w)

  abbrev pub submit_row : ReportRequest → Option Run → World S → Submitted S
  submit_row q none w = superseded q (find_by_logical_id (o.logical_run_id q.run_id) w.db.runs) w
  submit_row q (some r) w = submit_known r q w

  -- `SubmitReport`
  unfoldable pub submit_report : ReportRequest → World S → Submitted S
  submit_report q w = submit_row q (get q.run_id w.db.runs) w
