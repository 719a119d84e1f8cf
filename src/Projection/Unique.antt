-- ===== src/Projection/Unique.antt =====
-- The key of the table `relay_runs` of internal/execution/projection/projection.go, which the database
-- keeps: no write makes two rows of one run.
use relay_flow.Prelude.{
  ◌≤◌, String, Bool, Option, none, some, List, [], ◌∷◌, ◌==◌, ==-eq, elem, ◌≡◌, refl, ap, arith,
}
use relay_flow.Run.{canceling, RetryStatus}
use relay_flow.Projection.Table.{find, affected, update_where}
use relay_flow.Projection.Table.Keys.{
  affected-update_where, affected-insert_new, affected-delete_where,
}
use relay_flow.Projection.Runs.{
  RunRow, has_id, expired_ids, started_row, set_retry, set_state, state_where, cancel_where,
  insert_start, update_state_rows, begin_cancellation, update_retry, update_node_rows,
}
use relay_flow.Projection.Db.{
  Db, Op, inserts, updates_state, updates_state_if, begins_cancellation, updates_retry,
  updates_node, upserts_step, updates_runtime, updates_visit, replaces_runtime, clears_runtime,
  registers_session, records_report, sweeps, sweep_retention, apply, apply_all, empty_db,
}
use relay_flow.Projection.Fences.{runs-update_state_cas, runs-update_node}

-- `id TEXT PRIMARY KEY`
pub record IsKeyed (db : Db) : Type 0 where
  pub single : (id : String) → affected (has_id id) db.runs ≤ 1

module _ (id : String) (rows : List RunRow) where
  keeps_key :
      (cond : RunRow → Bool) (f : RunRow → RunRow)
      → ((x : RunRow) → (f x).id ≡ x.id)
      → affected (has_id id) rows ≤ 1
      → affected (has_id id) (update_where cond f rows) ≤ 1
  keeps_key cond f keeps h =
      rw (affected-update_where (has_id id) cond f (λ x. ap (λ k. k == id) (keeps x)) rows) h

apply-single :
    (op : Op) (db : Db) (id : String)
    → affected (has_id id) db.runs ≤ 1
    → affected (has_id id) (apply op db).runs ≤ 1
unfolding apply update_state_rows begin_cancellation update_retry update_node_rows insert_start
    sweep_retention
apply-single (inserts s now) db id h =
    affected-insert_new (has_id id) (has_id s.id) (started_row s now) db.runs
      (λ k. ap (λ j. find (has_id j) db.runs) (==-eq k)) h
apply-single (updates_state i t e f now) db id h =
    rw (runs-update_state_cas i none t e f now db)
      (keeps_key id db.runs (state_where i none t) (set_state t e f now) (λ x. refl) h)
apply-single (updates_state_if i x t e f now) db id h =
    rw (runs-update_state_cas i (some x) t e f now db)
      (keeps_key id db.runs (state_where i (some x) t) (set_state t e f now) (λ x. refl) h)
apply-single (begins_cancellation i reason now) db id h =
    keeps_key id db.runs (cancel_where i)
      (λ x. record x { state = canceling; last_error = reason; updated_at = now }) (λ x. refl) h
apply-single (updates_retry i status now) db id h =
    keeps_key id db.runs (has_id i) (set_retry status now) (retry_id status) h
  where
    retry_id : (st : Option RetryStatus) (x : RunRow) → (set_retry st now x).id ≡ x.id
    retry_id none x = refl
    retry_id (some q) x = refl
apply-single (updates_node i t node visit now) db id h =
    rw (runs-update_node i t node visit now db) (
      keeps_key id db.runs (cancel_where i)
        (λ x. record x {
          state = t;
          current_node = node;
          current_node_visit_id = visit;
          updated_at = now;
        })
        (λ x. refl) h)
apply-single (sweeps cutoff) db id h =
    let d =
      affected-delete_where (has_id id) (λ r. elem r.id (expired_ids cutoff db.runs)) db.runs in
    omega arith
apply-single (upserts_step elapsed s) db id h = h
apply-single (updates_runtime rt now) db id h = h
apply-single (updates_visit i node visit now) db id h = h
apply-single (replaces_runtime i node visit terminal previous session now) db id h = h
apply-single (clears_runtime i node t s now) db id h = h
apply-single (registers_session g now) db id h = h
apply-single (records_report i visit report now) db id h = h

apply_all-single :
    (ops : List Op) (db : Db) (id : String)
    → affected (has_id id) db.runs ≤ 1
    → affected (has_id id) (apply_all ops db).runs ≤ 1
unfolding apply_all
apply_all-single [] db id h = h
apply_all-single (op ∷ ops) db id h =
    apply_all-single ops (apply op db) id (apply-single op db id h)

-- Every database that the operations build from the empty one has at most one row for each run.
pub apply_all-IsKeyed : (ops : List Op) → IsKeyed (apply_all ops empty_db)
unfolding affected
apply_all-IsKeyed ops = record { single = λ id. apply_all-single ops empty_db id (omega arith) }
