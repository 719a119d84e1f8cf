-- ===== src/Projection/Db.antt =====
-- The database of internal/execution/projection/projection.go as a whole: the operations that touch
-- several tables, and all operations that change it as one type. The database itself is SQLite;
-- its own failures (an unreadable file, a full disk) are not modelled.
use relay_flow.Prelude.{
  ℕ, String, Bool, true, false, Option, none, some, List, [], ◌∷◌, elem, if◌then◌else◌, Result, ok,
  err,
}
use relay_flow.Run.{State, Start, RetryStatus}
use relay_flow.Projection.Table.{delete_where}
use relay_flow.Projection.Runs.{
  RunRow, insert_start, update_state_rows, state_updated, begin_cancellation, update_retry,
  update_node_rows, node_updated, expired_ids,
}
use relay_flow.Projection.Steps.{StepEntry, StepRow, StepError, upsert_step, update_open_step}
use relay_flow.Projection.Runtimes.{
  NodeRuntime, SessionRow, ReportRow, Registration, update_node_runtime, update_node_runtime_visit,
  replace_node_runtime, clear_node_runtime, register_node_session, record_processed_report,
}

pub record Db : Type 0 where
  pub runs : List RunRow
  pub steps : List StepRow
  pub runtimes : List NodeRuntime
  pub sessions : List SessionRow
  pub reports : List ReportRow

abbrev or_now : Option ℕ → ℕ → ℕ
or_now none now = now
or_now (some t) now = t

-- `updateStateCAS`: the result is whether the row was updated. The timeline is updated only then.
unfoldable pub update_state_cas :
    String → Option State → State → String → Option ℕ → ℕ → Db → Db × Bool
update_state_cas id expected state last_error finished now db =
    if state_updated id expected state db.runs
    then (
      record db {
        runs = update_state_rows id expected state last_error finished now db.runs;
        steps = update_open_step id state last_error (or_now finished now) db.steps;
      },
      true,
    )
    else (
      record db { runs = update_state_rows id expected state last_error finished now db.runs },
      false,
    )

-- `updateNode`: nothing more is done where no row was updated.
unfoldable pub update_node : String → State → String → String → ℕ → Db → Db
update_node id state node visit now db =
    let runs' = update_node_rows id state node visit now db.runs in
    if node_updated id db.runs
    then record db {
      runs = runs';
      runtimes = update_node_runtime_visit id node visit now db.runtimes;
    }
    else record db { runs = runs' }

-- `sweepRetention`: the rows of the expired runs go from every table.
unfoldable pub sweep_retention : ℕ → Db → Db × List String
sweep_retention cutoff db =
    let ids = expired_ids cutoff db.runs in
    (
      record {
        runs = delete_where (λ r. elem r.id ids) db.runs;
        steps = delete_where (λ r. elem r.run_id ids) db.steps;
        runtimes = delete_where (λ r. elem r.run_id ids) db.runtimes;
        sessions = delete_where (λ r. elem r.run_id ids) db.sessions;
        reports = delete_where (λ r. elem r.run_id ids) db.reports;
      },
      ids,
    )

-- What changes the database. Of the operations on the timeline only the states of steps are read
-- by an update of a run, so an upsert that fails leaves the database as it is.
pub data Op : Type 0 where
  inserts : Start → ℕ → Op
  updates_state : String → State → String → Option ℕ → ℕ → Op
  updates_state_if : String → State → State → String → Option ℕ → ℕ → Op
  begins_cancellation : String → String → ℕ → Op
  updates_retry : String → Option RetryStatus → ℕ → Op
  updates_node : String → State → String → String → ℕ → Op
  upserts_step : (ℕ → ℕ → ℕ) → StepEntry → Op
  updates_runtime : NodeRuntime → ℕ → Op
  updates_visit : String → String → String → ℕ → Op
  replaces_runtime : String → String → String → String → String → String → ℕ → Op
  clears_runtime : String → String → Bool → Bool → ℕ → Op
  registers_session : Registration → ℕ → Op
  records_report : String → String → String → ℕ → Op
  sweeps : ℕ → Op

abbrev step_rows : Result StepError (List StepRow) → List StepRow → List StepRow
step_rows (ok rows) old = rows
step_rows (err e) old = old

abbrev runtime_rows : Option (List NodeRuntime) → List NodeRuntime → List NodeRuntime
runtime_rows none old = old
runtime_rows (some rows) old = rows

unfoldable pub apply : Op → Db → Db
apply (inserts s now) db = record db { runs = insert_start s now db.runs }
apply (updates_state id state e f now) db = (update_state_cas id none state e f now db).0
apply (updates_state_if id expected state e f now) db =
    (update_state_cas id (some expected) state e f now db).0
apply (begins_cancellation id reason now) db = record db {
  runs = begin_cancellation id reason now db.runs;
}
apply (updates_retry id status now) db = record db { runs = update_retry id status now db.runs }
apply (updates_node id state node visit now) db = update_node id state node visit now db
apply (upserts_step elapsed s) db = record db {
  steps = step_rows (upsert_step elapsed s db.steps) db.steps;
}
apply (updates_runtime rt now) db = record db { runtimes = update_node_runtime rt now db.runtimes }
apply (updates_visit id node visit now) db = record db {
  runtimes = update_node_runtime_visit id node visit now db.runtimes;
}
apply (replaces_runtime id node visit terminal previous session now) db = record db {
  runtimes =
      runtime_rows (replace_node_runtime id node visit terminal previous session now db.runtimes)
        db.runtimes;
}
apply (clears_runtime id node t s now) db = record db {
  runtimes = clear_node_runtime id node t s now db.runtimes;
}
apply (registers_session g now) db =
    let r = register_node_session g now db.runtimes db.sessions in
    record db { runtimes = r.runtimes; sessions = r.sessions }
apply (records_report id visit report now) db = record db {
  reports = record_processed_report id visit report now db.reports;
}
apply (sweeps cutoff) db = (sweep_retention cutoff db).0

unfoldable pub apply_all : List Op → Db → Db
unfolding apply
apply_all [] db = db
apply_all (op ∷ ops) db = apply_all ops (apply op db)

abbrev pub empty_db : Db
empty_db = record { runs = []; steps = []; runtimes = []; sessions = []; reports = [] }
