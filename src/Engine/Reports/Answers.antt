-- ===== src/Engine/Reports/Answers.antt =====
-- What an answer of `SubmitReport` of internal/execution/goworkflows/engine.go goes back to.
use relay_flow.Prelude.{
  String, true, false, not, Option, none, some, List, Result, ok, err, ◌==◌, ==-eq, ==-ne, ◌&&◌,
  Bool-cases, Option-cases, &&-eq-true, not-eq-true, ◌≡◌, ◌≢◌, ◌⊎◌, inl, inr, refl, ap, lookup,
}
use relay_flow.Workflow.{Workflow}
use relay_flow.Workflow.Report.{ReportError, validate_report}
use relay_flow.Run.{Run, Start}
use relay_flow.Run.States.{terminal_state}
use relay_flow.Projection.Runs.{get, find_by_logical_id}
use relay_flow.Projection.Runtimes.{has_processed_report}
use relay_flow.Engine.{
  Fault, Instance, Event, Outside, World, EngineError, run_not_found, no_snapshot, history_failed,
  decode_failed, invalid_report, signal_failed, outside_result,
}
use relay_flow.Engine.Instances.{
  active_instance, first_input, decoded, from_input, from_history, from_instance, workflow_of,
}
use relay_flow.Engine.Reports.{
  ReportRequest, Ack, fresh, duplicate, is_current, signal_of, delivered, deliver, with_workflow,
  submit_known, superseded, submit_row,
}

-- Nothing but the cache of definitions has changed.
pub record Untouched {S : Type 0} (w w' : World S) : Type 0 where
  pub db : w'.db ≡ w.db
  pub outside : w'.outside ≡ w.outside

same_world : {S : Type 0} (w : World S) → Untouched w w
same_world w = record { db = refl; outside = refl }

-- The errors of `workflowOf`.
abbrev pub IsLookup : EngineError → Type 0
IsLookup (run_not_found id) = Unit
IsLookup (no_snapshot id) = Unit
IsLookup (history_failed e) = Unit
IsLookup (decode_failed e) = Unit
IsLookup _ = ⊥

abbrev pub Looks : {S : Type 0} → World S → Result EngineError Workflow × World S → Type 0
Looks w (ok v, w') = Untouched w w'
Looks w (err e, w') = IsLookup e × Untouched w w'

module _ {S : Type 0} (o : Outside S) (w : World S) (id : String) where
  decoded-Looks : (r : Result Fault Start) → Looks w (decoded o w id r)
  decoded-Looks (ok s) = record { db = refl; outside = refl }
  decoded-Looks (err e) = (tt, same_world w)

  from_input-Looks : (i : Option String) → Looks w (from_input o w id i)
  from_input-Looks none = (tt, same_world w)
  from_input-Looks (some x) = decoded-Looks (o.decode x)

  from_history-Looks : (r : Result Fault (List Event)) → Looks w (from_history o w id r)
  from_history-Looks (ok es) = from_input-Looks (first_input o es)
  from_history-Looks (err e) = (tt, same_world w)

  from_instance-Looks : (i : Option Instance) → Looks w (from_instance o w id i)
  from_instance-Looks none = (tt, same_world w)
  from_instance-Looks (some i) = from_history-Looks (o.history i w.outside)

  pub workflow_of-Looks : Looks w (workflow_of o id w)
  unfolding workflow_of
  workflow_of-Looks = elim (Option-cases (lookup id w.snapshots)) [
    | inl n ↦ rw (n, workflow_of) (from_instance-Looks (active_instance id (o.instances w.outside)))
    | inr (v, e) ↦ rw (e, workflow_of) (same_world w)
  ]

-- The report is about the visit where the run is, and has no receipt.
pub record IsDue {S : Type 0} (q : ReportRequest) (w : World S) (r : Run) : Type 0 where
  pub row : get q.run_id w.db.runs ≡ some r
  pub unprocessed : has_processed_report q.run_id q.report_id w.db.reports ≡ false
  pub visit : r.current_node_visit_id ≢ ""
  pub here : q.node ≡ r.current_node
  pub unfinished : terminal_state r.state ≡ false

-- The report has a receipt, is about another place or a finished run, or is of an attempt without a
-- row that another attempt has followed.
abbrev pub IsStale : {S : Type 0} → Outside S → ReportRequest → World S → Type 0
IsStale o q w =
    ((r : Run) × (get q.run_id w.db.runs ≡ some r)
      × (has_processed_report q.run_id q.report_id w.db.reports ≡ true))
    ⊎ ((r : Run) × (get q.run_id w.db.runs ≡ some r) × (is_current r q ≡ false))
    ⊎ ((r : Run) × (get q.run_id w.db.runs ≡ none)
        × (find_by_logical_id (o.logical_run_id q.run_id) w.db.runs ≡ some r)
        × (r.id ≢ q.run_id))

-- The signal that the due report becomes, and the legality of the report.
pub record IsLegal {S : Type 0} (o : Outside S) (q : ReportRequest) (w : World S) (r : Run)
    : Type 0 where
  pub due : IsDue q w r
  pub definition : Workflow
  pub resolves : (workflow_of o q.run_id w).0 ≡ ok definition
  pub legal : validate_report definition q.node q.report ≡ ok tt

abbrev pub Answer :
    {S : Type 0} → Outside S → ReportRequest → World S → Result EngineError Ack × World S → Type 0
Answer o q w (ok fresh, w') =
    (r : Run) × IsLegal o q w r
    × (o.signal q.run_id (signal_of o r q) w.outside ≡ (ok tt, w'.outside))
    × (w'.db ≡ w.db)
Answer o q w (ok duplicate, w') = (w' ≡ w) × IsStale o q w
Answer o q w (err (invalid_report e), w') =
    (r : Run) × (v : Workflow) × IsDue q w r
    × ((workflow_of o q.run_id w).0 ≡ ok v)
    × (validate_report v q.node q.report ≡ err e)
    × Untouched w w'
Answer o q w (err (signal_failed e), w') =
    (r : Run) × IsLegal o q w r
    × (o.signal q.run_id (signal_of o r q) w.outside ≡ (err e, w'.outside))
    × (w'.db ≡ w.db)
Answer o q w (err _, w') = Untouched w w'

lookup-Answer :
    {S : Type 0} (o : Outside S) (q : ReportRequest) (w : World S) (e : EngineError) (w' : World S)
    → IsLookup e
    → Untouched w w'
    → Answer o q w (err e, w')
lookup-Answer o q w (invalid_report e) w' h u = absurd h
lookup-Answer o q w (signal_failed e) w' h u = absurd h
lookup-Answer o q w _ w' h u = u

module _ {S : Type 0} (o : Outside S) (q : ReportRequest) (w : World S) (r : Run)
    (due : IsDue q w r) where
  deliver-Answer :
      (v : Workflow) (w' : World S) (c : Result ReportError (Unit {0}))
      → (workflow_of o q.run_id w).0 ≡ ok v
      → Untouched w w'
      → validate_report v q.node q.report ≡ c
      → Answer o q w (deliver o r q c w')
  deliver-Answer v w' (err e) found u h = (r, v, due, found, h, u)
  deliver-Answer v w' (ok x) found u h =
      let legal : IsLegal o q w r = record {
        due = due;
        definition = v;
        resolves = found;
        legal = h;
      } in
      sent (o.signal q.run_id (signal_of o r q) w'.outside) (rw (u.outside) refl) legal
    where
      sent :
          (y : Result Fault (Unit {0}) × S)
          → o.signal q.run_id (signal_of o r q) w.outside ≡ y
          → IsLegal o q w r
          → Answer o q w (delivered o (outside_result w' y))
      sent (ok a, s) e legal = (r, legal, e, u.db)
      sent (err f, s) e legal = (r, legal, e, u.db)

  with_workflow-Answer :
      (l : Result EngineError Workflow × World S)
      → workflow_of o q.run_id w ≡ l
      → Looks w l
      → Answer o q w (with_workflow o r q l)
  with_workflow-Answer (err e, w') h k = lookup-Answer o q w e w' k.0 k.1
  with_workflow-Answer (ok v, w') h k =
      deliver-Answer v w' (validate_report v q.node q.report) (ap (λ l. l.0) h) k refl

is_current-IsDue :
    {S : Type 0} (q : ReportRequest) (w : World S) (r : Run)
    → get q.run_id w.db.runs ≡ some r
    → has_processed_report q.run_id q.report_id w.db.reports ≡ false
    → is_current r q ≡ true
    → IsDue q w r
is_current-IsDue q w r row new h =
    let (ab, c) =
      &&-eq-true {a = not (r.current_node_visit_id == "") && q.node == r.current_node} h in
    let (a, b) = &&-eq-true {a = not (r.current_node_visit_id == "")} ab in
    record {
      row = row;
      unprocessed = new;
      visit = ==-ne (not-eq-true a);
      here = ==-eq b;
      unfinished = not-eq-true c;
    }

module _ {S : Type 0} (o : Outside S) (q : ReportRequest) (w : World S) where
  submit_known-Answer :
      (r : Run) → get q.run_id w.db.runs ≡ some r → Answer o q w (submit_known o r q w)
  unfolding submit_known
  submit_known-Answer r row =
      elim (Bool-cases (has_processed_report q.run_id q.report_id w.db.reports)) [
        | inl p ↦ rw (p, submit_known) (refl, inl (r, row, p))
        | inr p ↦ elim (Bool-cases (is_current r q)) [
          | inr c ↦ rw (p, c, submit_known) (refl, inr (inl (r, row, c)))
          | inl c ↦
              rw (p, c, submit_known)
                (with_workflow-Answer o q w r (is_current-IsDue q w r row p c)
                  (workflow_of o q.run_id w) refl (workflow_of-Looks o w q.run_id))
        ]
      ]

  superseded-Answer :
      (l : Option Run)
      → get q.run_id w.db.runs ≡ none
      → find_by_logical_id (o.logical_run_id q.run_id) w.db.runs ≡ l
      → Answer o q w (superseded o q l w)
  superseded-Answer none row h = same_world w
  superseded-Answer (some r) row h = elim (Bool-cases (r.id == q.run_id)) [
    | inl e ↦ rw e (same_world w)
    | inr e ↦ rw e (refl, inr (inr (r, row, h, ==-ne e)))
  ]

  pub submit_row-Answer :
      (l : Option Run) → get q.run_id w.db.runs ≡ l → Answer o q w (submit_row o q l w)
  submit_row-Answer none h =
      superseded-Answer (find_by_logical_id (o.logical_run_id q.run_id) w.db.runs) h refl
  submit_row-Answer (some r) h = submit_known-Answer r h
