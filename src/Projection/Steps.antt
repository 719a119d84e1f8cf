-- ===== src/Projection/Steps.antt =====
-- The table `relay_run_steps` of internal/execution/projection/projection.go, the timeline of a
-- run, and the step values of internal/run/detail.go. A nullable text column holds "" for NULL. The
-- zero time is 0.
use relay_flow.Prelude.{
  ℕ, zero, suc, ◌-◌, String, Bool, true, false, not, Option, none, some, List, [], ◌∷◌, ◌==◌, ◌&&◌,
  eqb, ltb, if◌then◌else◌, Result, ok, guard, ◌>>◌,
}
use relay_flow.Run.{State}
use relay_flow.Run.States.{terminal_state}
use relay_flow.Projection.Table.{update_where, find, upsert}

-- `no_status` is the empty text.
pub data StepStatus : Type 0 where
  no_status pending running waiting succeeded failed blocked canceled : StepStatus

-- `StepEntry`, and a row of the table, which keeps what `Duration` and `DurationKnown` say in one
-- nullable column. A duration is the pattern of the 64 bits of an int64, so that a negative one is
-- 2 ^ 63 or more.
pub record StepEntry : Type 0 where
  pub run_id : String
  pub sequence : ℕ
  pub node : String
  pub node_visit_id : String
  pub node_type : String
  pub parent_sequence : ℕ
  pub depth : ℕ
  pub status : StepStatus
  pub started_at : Option ℕ
  pub finished_at : Option ℕ
  pub duration : ℕ
  pub duration_known : Bool
  pub message : String
  pub route : String
  pub runtime : String
  pub resource : String

pub record StepRow : Type 0 where
  pub run_id : String
  pub sequence : ℕ
  pub node : String
  pub node_visit_id : String
  pub node_type : String
  pub parent_sequence : ℕ
  pub depth : ℕ
  pub status : StepStatus
  pub started_at : Option ℕ
  pub finished_at : Option ℕ
  pub duration_ns : Option ℕ
  pub message : String
  pub selected_route : String
  pub runtime : String
  pub resource : String

abbrev pub is_final : StepStatus → Bool
is_final succeeded = true
is_final failed = true
is_final canceled = true
is_final _ = false

-- The `CASE` of the column `status`, from the row's value and the new one.
abbrev pub merge_status : StepStatus → StepStatus → StepStatus
merge_status succeeded new = succeeded
merge_status failed new = failed
merge_status canceled new = canceled
merge_status blocked pending = blocked
merge_status blocked running = blocked
merge_status blocked waiting = blocked
merge_status waiting pending = waiting
merge_status waiting running = waiting
merge_status running pending = running
merge_status old new = new

-- `COALESCE(NULLIF(new, ''), old)`
abbrev pub or_text : String → String → String
or_text new old = if new == "" then old else new

abbrev pub or_time : Option ℕ → Option ℕ → Option ℕ
or_time none b = b
or_time (some a) b = some a

abbrev nonzero_time : Option ℕ → Option ℕ
nonzero_time none = none
nonzero_time (some t) = if eqb t 0 then none else some t

-- `later.Sub(earlier)`, or 0 where that is negative.
abbrev pub between : ℕ → ℕ → ℕ
between later earlier =
    if ltb 9223372036854775807 (later - earlier) then 9223372036854775807 else later - earlier

-- `durationNanos`; a negative difference counts as 0.
abbrev duration_nanos : StepEntry → Option ℕ
duration_nanos s = if not (eqb s.duration 0) then some s.duration else elim s.started_at [
  | none ↦ if s.duration_known then some 0 else none
  | some a ↦ elim s.finished_at [
    | none ↦ if s.duration_known then some 0 else none
    | some b ↦ some (between b a)
  ]
]

abbrev pub new_step : StepEntry → StepRow
new_step s = record {
  run_id = s.run_id;
  sequence = s.sequence;
  node = s.node;
  node_visit_id = s.node_visit_id;
  node_type = s.node_type;
  parent_sequence = s.parent_sequence;
  depth = s.depth;
  status = s.status;
  started_at = nonzero_time s.started_at;
  finished_at = nonzero_time s.finished_at;
  duration_ns = duration_nanos s;
  message = s.message;
  selected_route = s.route;
  runtime = s.runtime;
  resource = s.resource;
}

-- The `CASE` of the column `duration_ns` of a row that is not final. SQLite computes the difference
-- of two times in days, as a float; what that yields in nanoseconds is a parameter.
abbrev merge_duration : (ℕ → ℕ → ℕ) → StepRow → StepRow → Option ℕ
merge_duration elapsed old new =
    let timed : Option ℕ = elim new.finished_at [
      | none ↦ old.duration_ns
      | some b ↦ elim (or_time old.started_at new.started_at) [
        | none ↦ old.duration_ns
        | some a ↦ some (elapsed a b)
      ]
    ] in
    elim new.duration_ns [ none ↦ timed | some zero ↦ timed | some (suc d) ↦ some (suc d) ]

-- `DO UPDATE SET` of `upsertStep`.
abbrev pub merge_step : (ℕ → ℕ → ℕ) → StepRow → StepRow → StepRow
merge_step elapsed new old =
    let final = is_final old.status in
    record old {
      node = new.node;
      node_visit_id = or_text new.node_visit_id old.node_visit_id;
      node_type = or_text new.node_type old.node_type;
      parent_sequence =
          if eqb new.parent_sequence 0 then old.parent_sequence else new.parent_sequence;
      depth = if eqb new.depth 0 then old.depth else new.depth;
      status = merge_status old.status new.status;
      started_at = or_time old.started_at new.started_at;
      finished_at = if final then old.finished_at else or_time new.finished_at old.finished_at;
      duration_ns = if final then old.duration_ns else merge_duration elapsed old new;
      message = if final then old.message else or_text new.message old.message;
      selected_route =
          if final then old.selected_route else or_text new.selected_route old.selected_route;
      runtime = or_text new.runtime old.runtime;
      resource = or_text new.resource old.resource;
    }

pub data StepError : Type 0 where
  no_run_id no_node missing_status visit_taken : StepError

abbrev pub is_step : String → ℕ → StepRow → Bool
is_step id sequence r = r.run_id == id && eqb r.sequence sequence

-- A row that the unique index on a run and a visit, where the visit is not empty, holds against the
-- new one.
abbrev holds_visit : StepEntry → StepRow → Bool
holds_visit s r =
    not (s.node_visit_id == "")
    && r.run_id == s.run_id
    && r.node_visit_id == s.node_visit_id
    && not (eqb r.sequence s.sequence)

abbrev is_unset : StepStatus → Bool
is_unset no_status = true
is_unset _ = false

abbrev is_some {ℓ} : {A : Type ℓ} → Option A → Bool
is_some none = false
is_some (some a) = true

-- The checks of `upsertStep`, and that of the index.
unfoldable pub check_step : StepEntry → List StepRow → Result StepError (Unit {0})
unfolding find
check_step s rows = do
  guard (not (s.run_id == "")) no_run_id
  guard (not (s.node == "")) no_node
  guard (not (is_unset s.status)) missing_status
  guard (not (is_some (find (holds_visit s) rows))) visit_taken

-- `upsertStep`
unfoldable pub upsert_step :
    (ℕ → ℕ → ℕ) → StepEntry → List StepRow → Result StepError (List StepRow)
unfolding upsert update_where find
upsert_step elapsed s rows =
    check_step s rows
    >> ok (upsert (is_step s.run_id s.sequence) (merge_step elapsed (new_step s)) (new_step s) rows)

-- `stepStatusForRunState`; `none` is the empty text.
abbrev pub step_status_for : State → Option StepStatus
step_status_for State.running = some running
step_status_for State.waiting = some waiting
step_status_for State.blocked = some blocked
step_status_for State.completed = some succeeded
step_status_for State.canceled = some canceled
step_status_for State.starting = none
step_status_for State.canceling = none

abbrev pub is_open : StepStatus → Bool
is_open running = true
is_open waiting = true
is_open blocked = true
is_open _ = false

-- The newest open step of a run: `ORDER BY sequence DESC LIMIT 1`.
unfoldable pub open_step : String → List StepRow → Option ℕ
open_step id [] = none
open_step id (r ∷ rs) =
    let rest = open_step id rs in
    if r.run_id == id && is_open r.status
    then elim rest [
      | none ↦ some r.sequence
      | some n ↦ some (if ltb r.sequence n then n else r.sequence)
    ]
    else rest

-- The update of that step in `updateStateCAS`, with the duration that is written when it ends.
abbrev pub close_step : StepStatus → String → Bool → ℕ → StepRow → StepRow
close_step status message terminal at r = record r {
  status = status;
  message = or_text message r.message;
  finished_at = if terminal then or_time r.finished_at (some at) else r.finished_at;
  duration_ns =
      if terminal
      then elim r.started_at [ none ↦ r.duration_ns | some a ↦ some (between at a) ]
      else r.duration_ns;
}

unfoldable pub update_open_step : String → State → String → ℕ → List StepRow → List StepRow
update_open_step id state message at rows = elim (step_status_for state) [
  | none ↦ rows
  | some status ↦ elim (open_step id rows) [
    | none ↦ rows
    | some n ↦
        update_where (λ r. is_step id n r && is_open r.status)
          (close_step status message (terminal_state state) at) rows
  ]
]
