-- ===== src/Tests/Interpreters.antt =====
-- A run of the small workflow, with a report that is delivered twice.
use relay_flow.Prelude.{ℕ, String, List, [], ◌∷◌, ◌≡◌, refl, if◌then◌else◌, eqb}
use relay_flow.Workflow.{start_target, routes}
use relay_flow.Workflow.Report.{none_text, validate_report}
use relay_flow.Interpreter.{
  ReportSignal, Signal, reports, reconciles, Progress, completes, enter, deliver, receive,
  run_signals, run_graph,
}
use relay_flow.Interpreter.Rounds.{IsSound, receipts, run_graph-IsSound}
use relay_flow.Interpreter.Duplicates.{run_signals-duplicate}
use relay_flow.Prelude.{ℕ, true, false, List, All}
use relay_flow.Interpreter.Retry.{
  Attempt, sets_retry, clears_retry, blocks, unblocks, succeeds, fails, retry_loop,
}
use relay_flow.Interpreter.Retry.Shows.{shown, after_writes, IsWritten, Leaves, retry_loop-Leaves}
use relay_flow.Tests.Workflows.{demo, demo-validate, report_to_review}
use relay_flow.Tests.Rows.{start_of}

abbrev visit_ids : ℕ → String
visit_ids n = if eqb n 1 then "v1" else "v2"

abbrev to_review : ReportSignal
to_review = record {
  report_id = "r1";
  node = "build";
  node_visit_id = "v1";
  report = report_to_review;
}

abbrev to_end : ReportSignal
to_end = record {
  report_id = "r2";
  node = "review";
  node_visit_id = "v2";
  report = record report_to_review {
    next_step = "end";
    feedback = record {
      reason_for_next_step = none_text;
      required_actions = none_text;
      relevant_context = none_text;
      expected_result = none_text;
    };
  };
}

abbrev arriving : List Signal
arriving = reports to_review ∷ reconciles ∷ reports to_review ∷ reports to_end ∷ []

abbrev recorded : Progress → List String
recorded (completes log) = receipts log
recorded _ = []

both_reports_recorded : recorded (run_graph visit_ids (start_of "a") arriving) ≡ "r1" ∷ "r2" ∷ []
unfolding run_graph start_target enter run_signals receive deliver validate_report routes
both_reports_recorded = refl

run_graph-IsSound_example : IsSound demo (run_graph visit_ids (start_of "a") arriving)
run_graph-IsSound_example = run_graph-IsSound visit_ids (start_of "a") arriving demo-validate

run_signals-duplicate_example :
    run_signals visit_ids
      (start_of "a")
      (enter visit_ids (start_of "a") "build" 0 [] [] [])
      arriving
    ≡ run_signals visit_ids
        (start_of "a")
        (enter visit_ids (start_of "a") "build" 0 [] [] [])
        (reports to_review ∷ reconciles ∷ reports to_end ∷ [])
run_signals-duplicate_example =
    run_signals-duplicate visit_ids (start_of "a")
      (enter visit_ids (start_of "a") "build" 0 [] [] []) to_review to_review (reconciles ∷ [])
      (reports to_end ∷ []) refl

-- A conflict, a transient failure, and a success.
abbrev bumpy : List Attempt
bumpy =
    fails (record {
      is_conflict = true;
      context_over = false;
      state_written = true;
      recorded = true;
      waited = true;
    })
    ∷ fails (record {
      is_conflict = false;
      context_over = false;
      state_written = true;
      recorded = true;
      waited = true;
    })
    ∷ succeeds true true
    ∷ []

bumpy_writes :
    (retry_loop 0 false bumpy).writes
    ≡ blocks ∷ sets_retry 1 ∷ sets_retry 2 ∷ clears_retry ∷ unblocks ∷ []
unfolding retry_loop
bumpy_writes = refl

retry_loop-Leaves_example :
    Leaves 3
      (All IsWritten bumpy)
      (retry_loop 0 false bumpy)
      (after_writes (retry_loop 0 false bumpy).writes (shown 0 false))
retry_loop-Leaves_example = retry_loop-Leaves bumpy
