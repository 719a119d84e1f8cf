-- ===== src/Tests/Rows.antt =====
-- A run from its start to its end, and another that is canceled while it works.
use relay_flow.Prelude.{
  ◌-◌, String, true, false, none, some, elem, List, [], ◌∷◌, ok, ◌≡◌, ◌≢◌, ◌⊎◌, inl, refl, arith,
}
use relay_flow.Run.{running, completed, canceling, canceled, Start}
use relay_flow.Tests.Workflows.{demo}
use relay_flow.Projection.Table.{select, update_where, affected, find, upsert, insert_new}
use relay_flow.Projection.Runs.{scan_run, latest, find_by_ticket}
use relay_flow.Projection.Runs.{
  RunRow, insert_start, update_state_rows, state_updated, begin_cancellation, update_node_rows,
  node_updated,
}
use relay_flow.Projection.Steps.{
  StepEntry, StepRow, StepStatus, check_step, upsert_step, open_step, update_open_step, new_step,
}
use relay_flow.Projection.Runtimes.{
  NodeRuntime, Registration, at_node, register_node_session, has_processed_report,
  record_processed_report, update_node_runtime_visit,
}
use relay_flow.Projection.Db.{
  Op, inserts, updates_state, updates_node, begins_cancellation, update_state_cas, update_node,
  sweep_retention, apply, apply_all, empty_db,
}
use relay_flow.Projection.Fences.{run_row, terminal_absorbs, canceling_only_cancels}
use relay_flow.Projection.Timeline.{step_row, Keeps, upsert_step-Keeps}
use relay_flow.Projection.Sessions.{
  IsKeyed as HasReceipts, register_exact, record_processed_report_exact,
}
use relay_flow.Projection.Unique.{apply_all-IsKeyed}
use relay_flow.Projection.Retention.{IsOld, rows_of, sweep_retention_exact}

abbrev pub start_of : String → Start
start_of id = record {
  id = id;
  logical_id = id;
  attempt_id = 1;
  repo = "app";
  repo_path = "/app";
  workflow = demo;
  ticket = record { id = "1"; key = "K-1"; title = "T" };
  runtime = record { keep_terminals_alive = false; keep_sessions_alive = false };
}

abbrev history : List Op
history =
    inserts (start_of "a") 10
    ∷ updates_node "a" running "build" "v1" 20
    ∷ updates_state "a" completed "" (some 30) 30
    ∷ inserts (start_of "b") 40
    ∷ updates_node "b" running "build" "v2" 50
    ∷ begins_cancellation "b" "stop" 60
    ∷ []

-- What still arrives for the two runs.
abbrev late : List Op
late = updates_node "a" running "review" "v3" 70 ∷ updates_state "b" running "" none 80 ∷ []

abbrev row_a : RunRow
row_a = record {
  id = "a";
  logical_id = "a";
  attempt_id = 1;
  repo = "app";
  workflow = "demo";
  ticket = record { id = "1"; key = "K-1"; title = "T" };
  created_at = 10;
  state = completed;
  current_node = "build";
  current_node_visit_id = "v1";
  last_error = "";
  retry_error = none;
  retry_attempt = none;
  next_retry_at = none;
  started_at = 10;
  updated_at = 30;
  finished_at = some 30;
}

abbrev row_b : RunRow
row_b = record row_a {
  id = "b";
  logical_id = "b";
  created_at = 40;
  state = canceling;
  current_node_visit_id = "v2";
  last_error = "stop";
  started_at = 40;
  updated_at = 60;
  finished_at = none;
}

has_a : run_row "a" (apply_all history empty_db) ≡ some row_a
unfolding apply_all apply insert_start update_state_cas update_state_rows state_updated update_node
    update_node_rows node_updated begin_cancellation update_where affected find insert_new
    update_node_runtime_visit upsert update_open_step open_step
has_a = refl

has_b : run_row "b" (apply_all history empty_db) ≡ some row_b
unfolding apply_all apply insert_start update_state_cas update_state_rows state_updated update_node
    update_node_rows node_updated begin_cancellation update_where affected find insert_new
    update_node_runtime_visit upsert update_open_step open_step
has_b = refl

terminal_absorbs_example :
    (t : RunRow) × (run_row "a" (apply_all late (apply_all history empty_db)) ≡ some t)
    × (t.state ≡ completed)
terminal_absorbs_example =
    terminal_absorbs late "a" (apply_all history empty_db) ((λ s. s), ((λ s. s), tt)) has_a refl

canceling_only_cancels_example :
    (t : RunRow) × (run_row "b" (apply_all late (apply_all history empty_db)) ≡ some t)
    × ((t.state ≡ canceling) ⊎ (t.state ≡ canceled))
canceling_only_cancels_example =
    canceling_only_cancels late "b" (apply_all history empty_db)
      (((λ s. s), refl), (((λ s. s), refl), tt)) has_b (inl refl)

sweep_retention_exact_example :
    ((r : RunRow)
      → run_row "a" (apply_all history empty_db) ≡ some r
      → IsOld 100 r
      → (rows_of "a" (sweep_retention 100 (apply_all history empty_db)).0 ≡ ([], [], [], [], []))
        × (elem "a" (sweep_retention 100 (apply_all history empty_db)).1 ≡ true))
    × (((r : RunRow) → run_row "a" (apply_all history empty_db) ≡ some r → ¬ IsOld 100 r)
        → (rows_of "a" (sweep_retention 100 (apply_all history empty_db)).0
            ≡ rows_of "a" (apply_all history empty_db))
          × (elem "a" (sweep_retention 100 (apply_all history empty_db)).1 ≡ false))
sweep_retention_exact_example =
    sweep_retention_exact 100 (apply_all history empty_db) "a" (apply_all-IsKeyed history)

abbrev entry_of : StepStatus → String → StepEntry
entry_of status message = record {
  run_id = "a";
  sequence = 1;
  node = "build";
  node_visit_id = "v1";
  node_type = "agent";
  parent_sequence = 0;
  depth = 0;
  status = status;
  started_at = some 20;
  finished_at = some 30;
  duration = 0;
  duration_known = false;
  message = message;
  route = "review";
  runtime = "";
  resource = "";
}

-- A late `running` leaves the step succeeded.
late_step :
    upsert_step
      (λ a b. b - a)
      (entry_of StepStatus.running "late")
      (new_step (entry_of StepStatus.succeeded "done") ∷ [])
    ≡ ok (new_step (entry_of StepStatus.succeeded "done") ∷ [])
unfolding upsert_step check_step upsert update_where find
late_step = refl

one_step :
    step_row "a" 1 (new_step (entry_of StepStatus.succeeded "done") ∷ [])
    ≡ some (new_step (entry_of StepStatus.succeeded "done"))
unfolding find
one_step = refl

upsert_step-Keeps_example :
    (t : StepRow) × (step_row "a" 1 (new_step (entry_of StepStatus.succeeded "done") ∷ []) ≡ some t)
    × Keeps (new_step (entry_of StepStatus.succeeded "done")) t
upsert_step-Keeps_example =
    upsert_step-Keeps (λ a b. b - a) (entry_of StepStatus.running "late")
      (new_step (entry_of StepStatus.succeeded "done") ∷ []) "a" 1 late_step one_step

abbrev runtimes_of_a : List NodeRuntime
runtimes_of_a =
    record {
      run_id = "a";
      node = "build";
      terminal_id = "t";
      session_id = "";
      node_visit_id = "v1";
      updated_at = 20;
    }
    ∷ []

abbrev registers : Registration
registers = record { run_id = "a"; node = "build"; session_id = "s" }

register_exact_example :
    ((register_node_session registers 25 runtimes_of_a []).accepted ≡ true)
    × ((register_node_session registers 25 runtimes_of_a []).accepted ≡ true
        → find (at_node "a" "build") (register_node_session registers 25 runtimes_of_a []).runtimes
          ≡ some (record {
            run_id = "a";
            node = "build";
            terminal_id = "t";
            session_id = "s";
            node_visit_id = "v1";
            updated_at = 25;
          }))
    × ((register_node_session registers 25 runtimes_of_a []).accepted ≡ false
        → (register_node_session registers 25 runtimes_of_a []).runtimes ≡ runtimes_of_a)
unfolding find affected
register_exact_example = register_exact registers 25 runtimes_of_a [] refl refl

record_processed_report_exact_example :
    HasReceipts (record_processed_report "a" "v1" "r" 5 [])
    × (has_processed_report "a" "r" (record_processed_report "a" "v1" "r" 5 []) ≡ true)
    × ((i k : String)
        → ("a" ≢ i) ⊎ ("r" ≢ k)
        → has_processed_report i k (record_processed_report "a" "v1" "r" 5 [])
          ≡ has_processed_report i k [])
unfolding affected
record_processed_report_exact_example =
    record_processed_report_exact "a" "v1" "r" 5 [] (record { single = λ i k. omega arith })

found_b : find_by_ticket "K-1" (row_a ∷ row_b ∷ []) ≡ some (scan_run row_b)
unfolding find_by_ticket latest select
found_b = refl
