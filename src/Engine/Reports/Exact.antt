-- ===== src/Engine/Reports/Exact.antt =====
-- What an answer of `SubmitReport` of internal/execution/goworkflows/engine.go says.
use relay_flow.Prelude.{
  true, Result, ok, err, ◌==◌, ne-==, eq_iff, Bool-cases, ◌≡◌, inl, inr, refl, sym, ap, subst, ◌∙◌,
}
use relay_flow.Workflow.{Workflow}
use relay_flow.Workflow.Report.{ReportError, validate_report}
use relay_flow.Run.{Run}
use relay_flow.Projection.Runs.{get}
use relay_flow.Projection.Runtimes.{has_processed_report}
use relay_flow.Engine.{
  Fault, Outside, World, EngineError, invalid_report, signal_failed, outside_result,
}
use relay_flow.Engine.Instances.{workflow_of}
use relay_flow.Engine.Reports.{
  ReportRequest, Submitted, fresh, duplicate, is_current, signal_of, delivered, deliver,
  with_workflow, submit_known, submit_report,
}
use relay_flow.Engine.Reports.Answers.{
  Looks, workflow_of-Looks, IsDue, IsLegal, IsStale, Answer, submit_row-Answer,
}

-- The answer follows the library's to the signal.
abbrev pub Sends : {S : Type 0} → Result Fault (Unit {0}) × S → Submitted S → Type 0
Sends (ok _, s) (a, w') = (a ≡ ok fresh) × (w'.outside ≡ s)
Sends (err e, s) (a, w') = (a ≡ err (signal_failed e)) × (w'.outside ≡ s)

-- And each kind of report is answered as such.
pub record Decides {S : Type 0} (o : Outside S) (q : ReportRequest) (w : World S) (d : Submitted S)
    : Type 0 where
  pub legal : (r : Run) → IsLegal o q w r → Sends (o.signal q.run_id (signal_of o r q) w.outside) d
  pub illegal :
      (r : Run) (v : Workflow) (e : ReportError)
      → IsDue q w r
      → (workflow_of o q.run_id w).0 ≡ ok v
      → validate_report v q.node q.report ≡ err e
      → d.0 ≡ err (invalid_report e)
  pub undefined :
      (r : Run) (e : EngineError) → IsDue q w r → (workflow_of o q.run_id w).0 ≡ err e → d.0 ≡ err e
  pub stale : IsStale o q w → d ≡ (ok duplicate, w)

IsDue-is_current :
    {S : Type 0} (q : ReportRequest) (w : World S) (r : Run) → IsDue q w r → is_current r q ≡ true
IsDue-is_current q w r h =
    let a = ne-== h.visit in
    let b : (q.node == r.current_node) ≡ true = (eq_iff q.node r.current_node).1 h.here in
    rw (a, b, h.unfinished) refl

module _ {S : Type 0} (o : Outside S) (q : ReportRequest) (w : World S) where
  due_lem :
      (r : Run) → IsDue q w r → submit_report o q w ≡ with_workflow o r q (workflow_of o q.run_id w)
  unfolding submit_report submit_known
  due_lem r h = rw h.row (rw h.unprocessed (rw (IsDue-is_current q w r h) refl))

  stale_lem : IsStale o q w → submit_report o q w ≡ (ok duplicate, w)
  unfolding submit_report submit_known
  stale_lem (inl (r, row, p)) = rw row (rw p refl)
  stale_lem (inr (inl (r, row, c))) =
      elim (Bool-cases (has_processed_report q.run_id q.report_id w.db.reports)) [
        | inl p ↦ rw row (rw p refl)
        | inr p ↦ rw row (rw p (rw c refl))
      ]
  stale_lem (inr (inr (r, row, latest, other))) = rw row (rw latest (rw (ne-== other) refl))

  found_lem :
      (r : Run) (v : Workflow) (l : Result EngineError Workflow × World S)
      → l.0 ≡ ok v
      → with_workflow o r q l ≡ deliver o r q (validate_report v q.node q.report) l.1
  found_lem r v (ok u, w') h = let same : u ≡ v = cc in rw same refl
  found_lem r v (err e, w') h = cc

  not_found_lem :
      (r : Run) (e : EngineError) (l : Result EngineError Workflow × World S)
      → l.0 ≡ err e
      → (with_workflow o r q l).0 ≡ err e
  not_found_lem r e (ok u, w') h = cc
  not_found_lem r e (err f, w') h = let same : f ≡ e = cc in ap err same

  looked : (workflow_of o q.run_id w).1.outside ≡ w.outside
  looked = same_outside (workflow_of o q.run_id w) (workflow_of-Looks o w q.run_id)
    where
      same_outside :
          (l : Result EngineError Workflow × World S) → Looks w l → l.1.outside ≡ w.outside
      same_outside (ok v, w') k = k.outside
      same_outside (err e, w') k = k.1.outside

  delivered-Sends :
      (w' : World S) (m : Result Fault (Unit {0}) × S) → Sends m (delivered o (outside_result w' m))
  delivered-Sends w' (ok u, s) = (refl, refl)
  delivered-Sends w' (err e, s) = (refl, refl)

  submit_report-Decides : Decides o q w (submit_report o q w)
  submit_report-Decides = record {
    legal = λ r h.
        let l = workflow_of o q.run_id w in
        let goes : submit_report o q w
            ≡ delivered o (outside_result l.1 (o.signal q.run_id (signal_of o r q) l.1.outside)) =
          due_lem r h.due ∙ found_lem r h.definition l h.resolves ∙ rw h.legal refl in
        subst (Sends (o.signal q.run_id (signal_of o r q) w.outside)) (sym goes) (
          subst
            (λ x.
              Sends (o.signal q.run_id (signal_of o r q) x) (
                delivered o (outside_result l.1 (o.signal q.run_id (signal_of o r q) l.1.outside))))
            looked (delivered-Sends l.1 (o.signal q.run_id (signal_of o r q) l.1.outside)));
    illegal = λ r v e due found bad.
        let l = workflow_of o q.run_id w in
        let goes : submit_report o q w ≡ deliver o r q (err e) l.1 =
          due_lem r due ∙ found_lem r v l found ∙ rw bad refl in
        ap (λ d. d.0) goes;
    undefined = λ r e due found.
        ap (λ d. d.0) (due_lem r due) ∙ not_found_lem r e (workflow_of o q.run_id w) found;
    stale = stale_lem;
  }

-- Whatever the workflow library and the cache hold. `SubmitReport` acknowledges a report as new only
-- when it is about the current visit of an unfinished run, has no receipt, is legal in the definition
-- that `workflowOf` finds for the run, and the signal that carries it, with the visit, was accepted by the
-- library. It acknowledges a report as a duplicate only when that has a receipt, is about another
-- place or a finished run, or is of an attempt without a row that another one has followed, and then
-- nothing has changed. It refuses a report as invalid only for the error of `ValidateReport` at the
-- current visit. No other effect outside has happened and no row has changed, on any branch.
-- Conversely, every due and legal report is signaled, and the answer is that of the library; a due
-- report that is not legal, or whose definition is not found, gets the error for that; and every
-- stale report is acknowledged as a duplicate.
pub submit_report-Answer :
    {S : Type 0} (o : Outside S) (q : ReportRequest) (w : World S)
    → Answer o q w (submit_report o q w) × Decides o q w (submit_report o q w)
unfolding submit_report
submit_report-Answer o q w =
    (submit_row-Answer o q w (get q.run_id w.db.runs) refl, submit_report-Decides o q w)
