-- ===== src/Detail/Derive.antt =====
-- `DeriveInspectionFields` of internal/run/detail.go, and `listSteps` and `getDetail` of
-- internal/execution/projection/projection.go. A wait between two times is at most 2 ^ 63 - 1
-- nanoseconds.
use relay_flow.Prelude.{
  ℕ, suc, ◌+◌, ◌%◌, ◌^◌, String, Bool, true, false, Option, none, some, List, [], ◌∷◌, map, length,
  eqb, ltb, leb, ◌==◌, ◌&&◌, ◌||◌, if◌then◌else◌,
}
use relay_flow.Run.{State, Run, RetryStatus}
use relay_flow.Run.States.{same_state}
use relay_flow.Projection.Table.{find, select}
use relay_flow.Projection.Runs.{RunRow, has_id, get}
use relay_flow.Projection.Steps.{between, StepStatus, StepEntry, StepRow}
use relay_flow.Projection.Db.{Db}
use relay_flow.Detail.{
  RunConditions, RunProgress, ResourceDuration, RunDetail, no_resources, new_run_detail, is_pending,
}

abbrev retry_scheduled : Option RetryStatus → Bool
retry_scheduled none = false
retry_scheduled (some r) = true

abbrev pub conditions_of : Run → RunConditions
conditions_of r = record {
  node_running = same_state r.state State.running;
  waiting = same_state r.state State.waiting;
  retry_scheduled = retry_scheduled r.retry;
  completed = same_state r.state State.completed;
  failed = same_state r.state State.blocked;
  canceled = same_state r.state State.canceled || same_state r.state State.canceling;
}

abbrev pub is_closed : StepEntry → Bool
is_closed s = elim s.started_at [
  | none ↦ false
  | some a ↦ elim s.finished_at [ none ↦ false | some b ↦ true ]
]

-- `step.Status` is running, waiting or blocked.
abbrev pub is_current : StepStatus → Bool
is_current StepStatus.running = true
is_current StepStatus.waiting = true
is_current StepStatus.blocked = true
is_current _ = false

abbrev pub measured : ℕ → Option ℕ → Option ℕ → StepStatus → ℕ
measured now (some a) (some b) _ = between b a
measured now (some a) none s = if is_current s then between now a else 0
measured now none finished _ = 0

-- A pattern of 64 bits, or 0 where it is negative.
abbrev pub not_negative : ℕ → ℕ
not_negative d = if ltb 9223372036854775807 d then 0 else d

abbrev pub step_duration : ℕ → StepEntry → ℕ
step_duration now s =
    if eqb s.duration 0
    then measured now s.started_at s.finished_at s.status
    else not_negative s.duration

-- `duration_known = true` for a step whose duration comes from its two times.
abbrev pub mark_known : StepEntry → StepEntry
mark_known s = if eqb s.duration 0 && is_closed s then record s { duration_known = true } else s

abbrev pub count : StepEntry → RunProgress → RunProgress
count s p =
    if is_pending s.status
    then record p { pending = suc p.pending }
    else record p { completed = suc p.completed }

-- `+=` on an int64.
abbrev pub plus : ℕ → ℕ → ℕ
plus a b = (a + b) % 2 ^ 64

abbrev pub charge : String → ℕ → ResourceDuration → ResourceDuration
charge resource d r =
    if resource == "runner"
    then record r { known = true; runner = plus r.runner d }
    else if resource == "task-system" || resource == "taskSystem"
    then record r { known = true; task_system = plus r.task_system d }
    else if resource == "harness"
    then record r { known = true; harness = plus r.harness d }
    else if resource == ""
    then r
    else record r { known = true; other = plus r.other d }

-- The loop over the steps.
unfoldable pub progress_of : List StepEntry → RunProgress → RunProgress
progress_of [] p = p
progress_of (s ∷ ss) p = progress_of ss (count s p)

unfoldable pub resources_of : ℕ → List StepEntry → ResourceDuration → ResourceDuration
resources_of now [] r = r
resources_of now (s ∷ ss) r = resources_of now ss (charge s.resource (step_duration now s) r)

-- `DeriveInspectionFields`, at a time that is not zero.
unfoldable pub derive_inspection_fields : ℕ → RunDetail → RunDetail
derive_inspection_fields now d = record d {
  conditions = conditions_of d.run;
  progress = progress_of d.steps (record { completed = 0; total = length d.steps; pending = 0 });
  resources_duration = resources_of now d.steps no_resources;
  steps = map mark_known d.steps;
}

abbrev scan_known : Option ℕ → Bool
scan_known none = false
scan_known (some d) = true

abbrev scan_duration : Option ℕ → ℕ
scan_duration none = 0
scan_duration (some d) = d

abbrev pub scan_step : StepRow → StepEntry
scan_step r = record {
  run_id = r.run_id;
  sequence = r.sequence;
  node = r.node;
  node_visit_id = r.node_visit_id;
  node_type = r.node_type;
  parent_sequence = r.parent_sequence;
  depth = r.depth;
  status = r.status;
  started_at = r.started_at;
  finished_at = r.finished_at;
  duration = scan_duration r.duration_ns;
  duration_known = scan_known r.duration_ns;
  message = r.message;
  route = r.selected_route;
  runtime = r.runtime;
  resource = r.resource;
}

-- `ORDER BY sequence`
unfoldable pub insert_step : StepRow → List StepRow → List StepRow
insert_step r [] = r ∷ []
insert_step r (s ∷ ss) =
    let rest = insert_step r ss in if leb r.sequence s.sequence then r ∷ s ∷ ss else s ∷ rest

unfoldable pub in_order : List StepRow → List StepRow
in_order [] = []
in_order (r ∷ rs) = insert_step r (in_order rs)

-- `listSteps`
unfoldable pub list_steps : String → List StepRow → List StepEntry
list_steps id rs = map scan_step (in_order (select (λ r. r.run_id == id) rs))

abbrev created_of : Option RunRow → Option ℕ
created_of none = none
created_of (some r) = some r.created_at

abbrev pub detail_of : String → Db → ℕ → Option Run → Option RunDetail
detail_of id db now none = none
detail_of id db now (some r) = some (
    derive_inspection_fields now (record (new_run_detail r) {
      created_at = created_of (find (has_id id) db.runs);
      steps = list_steps id db.steps;
    }))

-- `getDetail`; `none` is `ErrRunNotFound`.
unfoldable pub get_detail : String → Db → ℕ → Option RunDetail
get_detail id db now = detail_of id db now (get id db.runs)
