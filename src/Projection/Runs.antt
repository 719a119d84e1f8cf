-- ===== src/Projection/Runs.antt =====
-- The table `relay_runs` of internal/execution/projection/projection.go. A nullable column that the
-- code reads through `COALESCE` or `NullString` is held as what that yields.
use relay_flow.Prelude.{
  ℕ, ◌+◌, ◌%◌, ◌^◌, String, Bool, false, not, Option, none, some, List, [], ◌∷◌, map, ◌==◌, ◌&&◌,
  ◌||◌, eqb, ltb, if◌then◌else◌,
}
use relay_flow.Run.{State, starting, canceling, canceled, TicketRef, Start, RetryStatus, Run}
use relay_flow.Run.States.{same_state, terminal_state}
use relay_flow.Projection.Table.{update_where, affected, find, select, insert_new}

pub record RunRow : Type 0 where
  pub id : String
  pub logical_id : String
  pub attempt_id : ℕ
  pub repo : String
  pub workflow : String
  pub ticket : TicketRef
  pub created_at : ℕ
  pub state : State
  pub current_node : String
  pub current_node_visit_id : String
  pub last_error : String
  pub retry_error : Option String
  pub retry_attempt : Option ℕ
  pub next_retry_at : Option ℕ
  pub started_at : ℕ
  pub updated_at : ℕ
  pub finished_at : Option ℕ

abbrev pub has_id : String → RunRow → Bool
has_id id r = r.id == id

abbrev or_else : Option ℕ → Option ℕ → Option ℕ
or_else none b = b
or_else (some a) b = some a

-- `insertStart`
abbrev pub started_row : Start → ℕ → RunRow
started_row s now = record {
  id = s.id;
  logical_id = if s.logical_id == "" then s.id else s.logical_id;
  attempt_id = if eqb s.attempt_id 0 then 1 else s.attempt_id;
  repo = s.repo;
  workflow = s.workflow.name;
  ticket = s.ticket;
  created_at = now;
  state = starting;
  current_node = "";
  current_node_visit_id = "";
  last_error = "";
  retry_error = none;
  retry_attempt = none;
  next_retry_at = none;
  started_at = now;
  updated_at = now;
  finished_at = none;
}

unfoldable pub insert_start : Start → ℕ → List RunRow → List RunRow
insert_start s now = insert_new (has_id s.id) (started_row s now)

-- The `SET` clause of `updateStateCAS`.
abbrev pub set_state : State → String → Option ℕ → ℕ → RunRow → RunRow
set_state state last_error finished now r =
    let terminal = terminal_state state in
    record r {
      state = state;
      last_error = last_error;
      updated_at = now;
      finished_at = or_else finished r.finished_at;
      retry_error = if terminal then none else r.retry_error;
      retry_attempt = if terminal then none else r.retry_attempt;
      next_retry_at = if terminal then none else r.next_retry_at;
    }

-- The fence of an ordinary update: `AND NOT (… OR …)`.
abbrev pub ordinary_fence : State → State → Bool
ordinary_fence old state = not (
    (same_state old canceling && not (same_state state canceling || same_state state canceled))
    || (terminal_state old && not (same_state old state)))

-- The condition of a compare-and-set.
abbrev pub expected_fence : State → State → State → Bool
expected_fence expected old state =
    same_state old expected && not (terminal_state old && not (same_state old state))

abbrev pub fence : Option State → State → State → Bool
fence none old state = ordinary_fence old state
fence (some expected) old state = expected_fence expected old state

-- The `WHERE` clause of `updateStateCAS`; no expected state is an ordinary update.
abbrev pub state_where : String → Option State → State → RunRow → Bool
state_where id expected state r = has_id id r && fence expected r.state state

unfoldable pub update_state_rows :
    String → Option State → State → String → Option ℕ → ℕ → List RunRow → List RunRow
update_state_rows id expected state last_error finished now =
    update_where (state_where id expected state) (set_state state last_error finished now)

unfoldable pub state_updated : String → Option State → State → List RunRow → Bool
state_updated id expected state rs = eqb (affected (state_where id expected state) rs) 1

-- `beginCancellation`
abbrev pub cancel_where : String → RunRow → Bool
cancel_where id r = has_id id r && not (terminal_state r.state || same_state r.state canceling)

unfoldable pub begin_cancellation : String → String → ℕ → List RunRow → List RunRow
begin_cancellation id reason now =
    update_where (cancel_where id)
      (λ r. record r { state = canceling; last_error = reason; updated_at = now })

-- `updateRetry`
abbrev pub set_retry : Option RetryStatus → ℕ → RunRow → RunRow
set_retry none now r = record r {
  retry_error = none;
  retry_attempt = none;
  next_retry_at = none;
  updated_at = now;
}
set_retry (some s) now r = record r {
  retry_error = some s.last_error;
  retry_attempt = some s.attempt;
  next_retry_at = some s.next_retry_at;
  updated_at = now;
}

unfoldable pub update_retry : String → Option RetryStatus → ℕ → List RunRow → List RunRow
update_retry id status now = update_where (has_id id) (set_retry status now)

-- The update of `updateNode` on this table; the run must be neither canceling nor terminal.
unfoldable pub update_node_rows : String → State → String → String → ℕ → List RunRow → List RunRow
update_node_rows id state node visit now = update_where (cancel_where id) (λ r. record r {
  state = state;
  current_node = node;
  current_node_visit_id = visit;
  updated_at = now;
})

unfoldable pub node_updated : String → List RunRow → Bool
node_updated id rs = eqb (affected (cancel_where id) rs) 1

-- `scanRun`
abbrev retry_of : RunRow → Option RetryStatus
retry_of r = elim r.retry_error [
  | none ↦ none
  | some e ↦ elim r.retry_attempt [
    | none ↦ none
    | some n ↦ elim r.next_retry_at [
      | none ↦ none
      | some t ↦ some (record { attempt = n; last_error = e; next_retry_at = t })
    ]
  ]
]

-- The column `attempt_id` holds the int64 of a uint64, here its 64 bits. This is its order, moved
-- upwards by 2 ^ 63.
abbrev pub in_order : ℕ → ℕ
in_order bits = (bits + 2 ^ 63) % 2 ^ 64

abbrev is_positive : ℕ → Bool
is_positive bits = ltb (in_order 0) (in_order bits)

unfoldable pub scan_run : RunRow → Run
scan_run r = record {
  id = r.id;
  logical_id = if r.logical_id == "" then r.id else r.logical_id;
  attempt_id = if is_positive r.attempt_id then r.attempt_id else 1;
  repo = r.repo;
  workflow = r.workflow;
  ticket = r.ticket;
  state = r.state;
  current_node = r.current_node;
  current_node_visit_id = r.current_node_visit_id;
  last_error = r.last_error;
  retry = retry_of r;
  started_at = r.started_at;
  updated_at = r.updated_at;
  finished_at = r.finished_at;
}

-- `get`; `none` is `ErrRunNotFound`.
unfoldable pub get : String → List RunRow → Option Run
unfolding scan_run
get id rs = elim (find (has_id id) rs) [ none ↦ none | some r ↦ some (scan_run r) ]

-- `ORDER BY started_at DESC, attempt_id DESC`: the row stands before the other.
abbrev pub newer_row : RunRow → RunRow → Bool
newer_row a b =
    ltb b.started_at a.started_at
    || (eqb a.started_at b.started_at && ltb (in_order b.attempt_id) (in_order a.attempt_id))

unfoldable pub latest : List RunRow → Option RunRow
latest [] = none
latest (r ∷ rs) = elim (latest rs) [
  | none ↦ some r
  | some s ↦ some (if newer_row s r then s else r)
]

-- `findByTicket` and `findByLogicalID`
unfoldable pub find_by_ticket : String → List RunRow → Option Run
unfolding scan_run latest select
find_by_ticket key rs = elim (latest (select (λ r. r.ticket.key == key) rs)) [
  | none ↦ none
  | some r ↦ some (scan_run r)
]

unfoldable pub find_by_logical_id : String → List RunRow → Option Run
unfolding scan_run latest select
find_by_logical_id logical rs = elim (latest (select (λ r. r.logical_id == logical) rs)) [
  | none ↦ none
  | some r ↦ some (scan_run r)
]

-- `hasActive` for the columns `workflow` and `repo`.
unfoldable pub has_active_workflow : String → List RunRow → Bool
has_active_workflow w rs =
    ltb 0 (affected (λ r. r.workflow == w && not (terminal_state r.state)) rs)

unfoldable pub has_active_repo : String → List RunRow → Bool
has_active_repo w rs = ltb 0 (affected (λ r. r.repo == w && not (terminal_state r.state)) rs)

-- The condition of `sweepRetention`.
abbrev pub finished_before : ℕ → Option ℕ → Bool
finished_before cutoff none = false
finished_before cutoff (some t) = ltb t cutoff

abbrev pub expired : ℕ → RunRow → Bool
expired cutoff r = terminal_state r.state && finished_before cutoff r.finished_at

-- The identities that a sweep deletes.
unfoldable pub expired_ids : ℕ → List RunRow → List String
expired_ids cutoff rs = map (λ r. r.id) (select (expired cutoff) rs)
