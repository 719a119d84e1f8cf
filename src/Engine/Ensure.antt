-- ===== src/Engine/Ensure.antt =====
-- `EnsureRun` of internal/execution/goworkflows/engine.go.
pub mod Starts
use relay_flow.Prelude.{
  String, Bool, true, false, Option, none, some, List, Result, ok, err, ◌==◌, ◌+++◌, ◌||◌, eqb,
  if◌then◌else◌,
}
use relay_flow.Run.{Start, Run, State, completed, canceled, canceling}
use relay_flow.Run.States.{active_state}
use relay_flow.Projection.Runs.{get, insert_start}
use relay_flow.Projection.Runtimes.{NodeRuntime, get_node_runtime}
use relay_flow.Engine.{
  Fault, already_exists, Instance, Signal, reconciles, Outside, World, EngineError, create_failed,
  signal_failed, outside_result, remember,
}
use relay_flow.Engine.Instances.{active_instance, last_where}

abbrev pub Ensured : Type 0 → Type 0
Ensured S = Result EngineError Bool × World S

module _ {S : Type 0} (o : Outside S) where
  -- The defaults of an earlier caller.
  abbrev pub filled : Start → Start
  filled s = record s {
    logical_id = if s.logical_id == "" then o.logical_run_id s.id else s.logical_id;
    attempt_id = if eqb s.attempt_id 0 then 1 else s.attempt_id;
  }

  abbrev pub created_new : Start → Result Fault (Unit {0}) × World S → Ensured S
  created_new s (ok _, w) = (ok true, record w { snapshots = remember s.id s.workflow w.snapshots })
  created_new s (err already_exists, w) = (ok false, w)
  created_new s (err e, w) = (err (create_failed e), w)

  -- A run without a row.
  unfoldable pub ensure_new : Start → World S → Ensured S
  ensure_new start w =
      let s = record start { runtime = w.runtime } in
      let w' = record w { db = record w.db { runs = insert_start s w.now w.db.runs } } in
      created_new s (outside_result w' (o.create_instance s w'.outside))

  abbrev pub recreated : Result Fault (Unit {0}) × World S → Ensured S
  recreated (ok _, w) = (ok true, w)
  recreated (err already_exists, w) = (ok true, w)
  recreated (err e, w) = (err (create_failed e), w)

  abbrev pub signaled : Result Fault (Unit {0}) × World S → Ensured S
  signaled (ok _, w) = (ok false, w)
  signaled (err e, w) = (err (signal_failed e), w)

  abbrev pub terminal_of : Option NodeRuntime → String
  terminal_of none = ""
  terminal_of (some rt) = rt.terminal_id

  -- Whether the terminal of the current node is there.
  abbrev pub is_live : Run → World S → Bool
  is_live r w =
      let id = terminal_of (get_node_runtime r.id r.current_node w.db.runtimes) in
      if id == ""
      then false
      else o.find_terminal id (r.ticket.key +++ ":" +++ r.current_node) w.outside

  -- An active run with an instance.
  unfoldable pub reconcile_terminal : Run → World S → Ensured S
  reconcile_terminal r w =
      if r.current_node == "" || r.current_node_visit_id == ""
      then (ok false, w)
      else if is_live r w
      then (ok false, w)
      else signaled (outside_result w (o.signal r.id reconciles w.outside))

  abbrev pub ensure_active : Start → Run → Option Instance → World S → Ensured S
  ensure_active s r (some i) w = reconcile_terminal r w
  ensure_active s r none w =
      recreated (outside_result w (o.create_instance (record s { runtime = w.runtime }) w.outside))

  unfoldable pub ensure_row : Start → Option Run → World S → Ensured S
  unfolding ensure_new reconcile_terminal last_where
  ensure_row s none w = ensure_new s w
  ensure_row s (some r) w =
      if active_state r.state
      then ensure_active s r (active_instance s.id (o.instances w.outside)) w
      else (ok false, w)

  -- `EnsureRun`
  unfoldable pub ensure_run : Start → World S → Ensured S
  unfolding ensure_row get
  ensure_run start w = let s = filled start in ensure_row s (get s.id w.db.runs) w
