-- ===== src/Engine/Cancel.antt =====
-- `CancelRun` of internal/execution/goworkflows/engine.go and its reconciliation of the projection with
-- the workflow library; `FinalizeNodeRuntimes` of internal/execution/goworkflows/activities.go. The
-- calls are made one after the other, with nothing in between.
pub mod Rows
pub mod History
pub mod Terminals
pub mod Outcomes
pub mod Cleared
pub mod GivenUp
pub mod Cleanup
pub mod Reconcile
pub mod Decides
use relay_flow.Prelude.{
  String, Bool, true, false, not, Option, none, some, List, [], ◌∷◌, map, Result, ok, err, ◌==◌,
  ◌+++◌, ◌&&◌, ◌||◌, if◌then◌else◌, ℕ,
}
use relay_flow.Run.{State, canceling, canceled, completed, Run, RuntimePolicy}
use relay_flow.Run.States.{terminal_state, same_state}
use relay_flow.Projection.Table.{select}
use relay_flow.Projection.Runs.{get, begin_cancellation}
use relay_flow.Projection.Runtimes.{NodeRuntime, clear_node_runtime}
use relay_flow.Projection.Db.{Db, update_state_cas}
use relay_flow.Engine.{
  Fault, not_found, Instance, Event, started, cancel_requested, terminated, finished, unrelated,
  Outside, World, EngineError, run_not_found, no_terminal_event, was_terminated, history_failed,
  cancel_failed, close_failed, comment_failed, state_changed, not_registered, reappeared,
  outside_result, cancellation_marker,
}
use relay_flow.Engine.Instances.{lookup_instance}

abbrev pub Done : Type 0 → Type 0
Done S = Result EngineError (Unit {0}) × World S

-- `if err := m; err != nil { return … }`
abbrev pub proceed :
    {S : Type 0}
    → (Fault → EngineError)
    → Result Fault (Unit {0}) × World S
    → (World S → Done S)
    → Done S
proceed f (ok _, w) k = k w
proceed f (err e, w) k = (err (f e), w)

abbrev pub follow : {S : Type 0} → Done S → (World S → Done S) → Done S
follow (ok _, w) k = k w
follow (err e, w) k = (err e, w)

-- `listNodeRuntimes`
unfoldable pub list_node_runtimes : String → List NodeRuntime → List NodeRuntime
unfolding select
list_node_runtimes id = select (λ r. r.run_id == id)

-- The rows of a run after its terminals and sessions were given up.
unfoldable pub clear_all :
    String → Bool → Bool → ℕ → List NodeRuntime → List NodeRuntime → List NodeRuntime
clear_all id t s now [] rows = rows
clear_all id t s now (rt ∷ rts) rows =
    clear_all id t s now rts (clear_node_runtime id rt.node t s now rows)

-- What the events of a finished execution say.
pub data Verdict : Type 0 where
  broken undecided canceled_first : Verdict
  finished_at : ℕ → Verdict

abbrev pub verdict : Bool → Option ℕ → Verdict
verdict true t = canceled_first
verdict false none = undecided
verdict false (some t) = finished_at t

-- The loop over the events: whether a cancellation came before the finish, and the first finish.
unfoldable pub read_events : Bool → Option ℕ → List Event → Verdict
read_events c f [] = verdict c f
read_events c none (cancel_requested ∷ es) = read_events true none es
read_events c (some t) (cancel_requested ∷ es) = read_events c (some t) es
read_events c none (finished t ∷ es) = read_events c (some t) es
read_events c (some t) (finished u ∷ es) = read_events c (some t) es
read_events c f (terminated ∷ es) = broken
read_events c f (started xs ∷ es) = read_events c f es
read_events c f (unrelated ∷ es) = read_events c f es

-- After a conditional update: what a lost race leaves.
abbrev pub after_race : {S : Type 0} → String → World S → Option Run → Done S
after_race id w none = (err (run_not_found id), w)
after_race id w (some latest) =
    if terminal_state latest.state then (ok tt, w) else (err (state_changed latest.state), w)

abbrev pub raced : {S : Type 0} → String → World S → Bool → Done S
raced id w true = (ok tt, w)
raced id w false = after_race id w (get id w.db.runs)

-- `updateStateIf` from canceling to a terminal state.
unfoldable pub conclude : {S : Type 0} → String → State → ℕ → World S → Done S
conclude id state t w =
    let r = update_state_cas id (some canceling) state "" (some t) w.now w.db in
    raced id (record w { db = r.0 }) r.1

module _ {S : Type 0} (o : Outside S) where
  unfoldable pub close_terminals : String → List NodeRuntime → World S → Done S
  close_terminals key [] w = (ok tt, w)
  close_terminals key (rt ∷ rts) w = elim (rt.terminal_id == "") [
    | true ↦ close_terminals key rts w
    | false ↦
        proceed close_failed
          (outside_result w (o.close_terminal rt.terminal_id (key +++ ":" +++ rt.node) w.outside))
          (close_terminals key rts)
  ]

  -- `FinalizeNodeRuntimes`
  unfoldable pub finalize_node_runtimes : Run → RuntimePolicy → World S → Done S
  finalize_node_runtimes r policy w =
      let rts = list_node_runtimes r.id w.db.runtimes in
      follow
        (if policy.keep_terminals_alive then (ok tt, w) else close_terminals r.ticket.key rts w)
        λ w'. (
          ok tt,
          record w' {
            db = record w'.db {
              runtimes =
                  clear_all r.id (not policy.keep_terminals_alive) (not policy.keep_sessions_alive)
                    w'.now rts w'.db.runtimes;
            };
          },
        )

  abbrev pub reason_text : String → String
  reason_text reason = if reason == "" then "operator requested cancellation" else reason

  abbrev pub marker_id : Run → String
  marker_id r = if r.logical_id == "" then r.id else r.logical_id

  -- `finalizeCancellationEffects`, at a run that is still being canceled.
  abbrev pub cancel_effects : Run → String → World S → Done S
  cancel_effects r reason w = follow (finalize_node_runtimes r w.runtime w) λ w'.
      proceed comment_failed
        (outside_result w' (
          o.comment r.repo r.ticket.key ("Run canceled: " +++ reason_text reason)
            (cancellation_marker (marker_id r)) w'.outside))
        (λ w''. conclude r.id canceled w''.now w'')

  abbrev pub in_repo : Run → String → Option String → World S → Done S
  in_repo r reason none w = (err (not_registered r.repo), w)
  in_repo r reason (some path) w = cancel_effects r reason w

  unfoldable pub finalize_cancellation_effects : Run → String → World S → Done S
  finalize_cancellation_effects r reason w =
      if terminal_state r.state
      then (ok tt, w)
      else if not (same_state r.state canceling)
      then (err (state_changed r.state), w)
      else in_repo r reason (o.repo_path r.repo) w

  -- `reconcileFinishedCancellation`
  abbrev pub decide : Run → String → Verdict → World S → Done S
  decide r reason broken w = (err (was_terminated r.id), w)
  decide r reason undecided w = (err (no_terminal_event r.id), w)
  decide r reason canceled_first w = finalize_cancellation_effects r reason w
  decide r reason (finished_at t) w = conclude r.id completed t w

  abbrev pub with_history : Run → String → Result Fault (List Event) → World S → Done S
  with_history r reason (err e) w = (err (history_failed e), w)
  with_history r reason (ok es) w = decide r reason (read_events false none es) w

  unfoldable pub reconcile_finished : Run → Instance → String → World S → Done S
  reconcile_finished r i reason w = with_history r reason (o.history i w.outside) w

  abbrev pub missing_still : Run → String → Option Instance → World S → Done S
  missing_still r reason none w = finalize_cancellation_effects r reason w
  missing_still r reason (some i) w =
      if i.active then (err (reappeared r.id), w) else reconcile_finished r i reason w

  abbrev pub missing_row : String → String → Option Run → World S → Done S
  missing_row id reason none w = (err (run_not_found id), w)
  missing_row id reason (some current) w =
      if terminal_state current.state
      then (ok tt, w)
      else if not (same_state current.state canceling)
      then (err (state_changed current.state), w)
      else missing_still current reason (lookup_instance id (o.instances w.outside)) w

  -- `finalizeMissingCancellation`
  unfoldable pub finalize_missing : String → String → World S → Done S
  finalize_missing id reason w = missing_row id reason (get id w.db.runs) w

  -- `requestCancellation`: at most one request for an execution.
  abbrev pub request_unless :
      Instance → World S → Result Fault Bool → Result Fault (Unit {0}) × World S
  request_unless i w (err e) = (err e, w)
  request_unless i w (ok true) = (ok tt, w)
  request_unless i w (ok false) = outside_result w (o.cancel_instance i w.outside)

  unfoldable pub request_cancellation : Instance → World S → Result Fault (Unit {0}) × World S
  request_cancellation i w = request_unless i w (o.cancel_pending i w.outside)

  abbrev pub requested : Run → String → Result Fault (Unit {0}) × World S → Done S
  requested r reason (ok _, w) = (ok tt, w)
  requested r reason (err not_found, w) = finalize_missing r.id reason w
  requested r reason (err e, w) = (err (cancel_failed e), w)

  -- `reconcileCancellation`
  abbrev pub reconcile_found : Run → String → Option Instance → World S → Done S
  reconcile_found r reason none w = finalize_missing r.id reason w
  reconcile_found r reason (some i) w =
      if i.active
      then requested r reason (request_cancellation i w)
      else reconcile_finished r i reason w

  unfoldable pub reconcile_cancellation : Run → String → World S → Done S
  reconcile_cancellation r reason w =
      reconcile_found r reason (lookup_instance r.id (o.instances w.outside)) w

  abbrev pub cancel_row : String → Option Run → World S → Done S
  cancel_row id none w = (err (run_not_found id), w)
  cancel_row id (some r) w =
      if terminal_state r.state
      then (ok tt, w)
      else if not (same_state r.state canceling)
      then (err (state_changed r.state), w)
      else reconcile_cancellation r r.last_error w

  -- `CancelRun`
  unfoldable pub cancel_run : String → String → World S → Done S
  cancel_run id reason w =
      let w' = record w {
        db = record w.db { runs = begin_cancellation id reason w.now w.db.runs };
      } in
      cancel_row id (get id w'.db.runs) w'
