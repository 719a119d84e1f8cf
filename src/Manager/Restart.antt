-- ===== src/Manager/Restart.antt =====
-- `RestartByTicket` and `CancelByTicket` of internal/run/manager.go.
pub mod Attempts
use relay_flow.Prelude.{
  ℕ, ◌+◌, String, Bool, true, false, not, Option, none, some, List, [], ◌∷◌, Result, ok, err, guard,
  ◌>>=◌, ◌>>◌, elem, ◌==◌, ◌&&◌, ◌||◌, eqb, leb, if◌then◌else◌,
}
use relay_flow.Run.{State, starting, canceling, canceled, TicketRef, Start, Run}
use relay_flow.Run.States.{active_state, same_state}
use relay_flow.Config.{RawValues}
use relay_flow.Workflow.{Workflow}
use relay_flow.Workflow.Health.{is_routable}
use relay_flow.Repo.{PortError, Repo}
use relay_flow.Manager.{RunManager, RunQueries}
use relay_flow.Manager.Ensure.{EnsureError, Call, Traced, ensure}

-- The reasons for `ErrRestartConflict`.
pub data Conflict : Type 0 where
  still_canceling repo_gone workflow_gone unroutable unbound exhausted : Conflict
  not_canceled : State → Conflict

pub data RestartError : Type 0 where
  no_queries no_dependencies : RestartError
  find_failed list_failed : PortError → RestartError
  conflict : Conflict → RestartError
  start_failed : EnsureError → RestartError

-- `AttemptID` is a `uint64`.
abbrev pub max_attempt : ℕ
max_attempt = 18446744073709551615

abbrev pub attempt_of : Run → ℕ
attempt_of r = if eqb r.attempt_id 0 then 1 else r.attempt_id

-- The loop that allocates the attempt.
unfoldable pub next_attempt : ℕ → List Run → Result RestartError ℕ
next_attempt n [] = ok n
next_attempt n (c ∷ cs) = elim (leb n (attempt_of c)) [
  | false ↦ next_attempt n cs
  | true ↦ elim (eqb (attempt_of c) max_attempt) [
    | true ↦ err (conflict exhausted)
    | false ↦ next_attempt (attempt_of c + 1) cs
  ]
]

-- What a restart comes to: the active attempt as it is, or a new one.
pub data Decision : Type 0 where
  keeps : Run → Decision
  starts : Start → Decision

abbrev pub or_missing : {A : Type 0} → RestartError → Option A → Result RestartError A
or_missing e none = err e
or_missing e (some a) = ok a

abbrev pub or_failed :
    {A : Type 0} → (PortError → RestartError) → Result PortError A → Result RestartError A
or_failed f (ok a) = ok a
or_failed f (err e) = err (f e)

abbrev has_port : RunManager → Bool
has_port m = elim m.ensure_port [ none ↦ false | some p ↦ true ]

abbrev pub keyed : TicketRef → String → TicketRef
keyed t ticket = record t { key = if t.key == "" then ticket else t.key }

abbrev pub logical_of : RunManager → Run → String
logical_of m r =
    if r.logical_id == "" then m.new_run_id r.repo r.workflow r.ticket.key else r.logical_id

abbrev pub restart_start : RunManager → Run → Repo → Workflow → String → ℕ → Start
restart_start m previous r w ticket attempt = record {
  id = m.new_attempt_run_id (logical_of m previous) attempt;
  logical_id = logical_of m previous;
  attempt_id = attempt;
  repo = previous.repo;
  repo_path = r.path;
  workflow = w;
  ticket = keyed previous.ticket ticket;
  runtime = record { keep_terminals_alive = false; keep_sessions_alive = false };
}

-- The registries resolve the repo and the latest workflow, and the next attempt is allocated.
unfoldable pub fresh_attempt : RunManager → RunQueries → Run → String → Result RestartError Decision
fresh_attempt m q previous ticket = do
  guard (has_port m) no_dependencies
  repos ← or_missing no_dependencies m.repos
  workflows ← or_missing no_dependencies m.workflows
  r ← or_missing (conflict repo_gone) (repos previous.repo)
  w ← or_missing (conflict workflow_gone) (workflows previous.workflow)
  guard (is_routable (some w)) (conflict unroutable)
  guard (elem previous.repo w.repos) (conflict unbound)
  attempts ← or_failed list_failed (q.list_runs previous.repo previous.workflow ticket)
  attempt ← next_attempt 1 attempts
  ok (starts (restart_start m previous r w ticket attempt))

unfoldable pub decide_restart :
    RunManager → RunQueries → Run → String → Result RestartError Decision
decide_restart m q previous ticket =
    if active_state previous.state && not (eqb previous.attempt_id 0)
    then ok (keeps previous)
    else guard (not (same_state previous.state canceling)) (conflict still_canceling)
      >> (guard (same_state previous.state canceled) (conflict (not_canceled previous.state))
          >> fresh_attempt m q previous ticket)

unfoldable pub plan_restart : RunManager → String → Result RestartError Decision
plan_restart m ticket = do
  q ← or_missing no_queries m.runs
  previous ← or_failed find_failed (q.find_run_by_ticket ticket)
  decide_restart m q previous ticket

-- The run that is returned for a new attempt: as the queries have it, or as it must be.
abbrev started_run : Option RunQueries → Start → ℕ → Run
started_run qs s now =
    let made : Run = record {
      id = s.id;
      logical_id = s.logical_id;
      attempt_id = s.attempt_id;
      repo = s.repo;
      workflow = s.workflow.name;
      ticket = s.ticket;
      state = starting;
      current_node = "";
      current_node_visit_id = "";
      last_error = "";
      retry = none;
      started_at = now;
      updated_at = now;
      finished_at = none;
    } in
    elim qs [ none ↦ made | some q ↦ elim (q.get_run s.id) [ ok r ↦ r | err e ↦ made ] ]

pub record Restarted : Type 0 where
  pub calls : List Call
  pub result : Result RestartError Run

abbrev after_start : Traced (Unit {0}) → Run → Restarted
after_start t r = record {
  calls = t.calls;
  result = elim t.result [ ok u ↦ ok r | err e ↦ err (start_failed e) ];
}

abbrev carry_out : RunManager → ℕ → Result RestartError Decision → Restarted
carry_out m now (err e) = record { calls = []; result = err e }
carry_out m now (ok (keeps r)) = record { calls = []; result = ok r }
carry_out m now (ok (starts s)) = after_start (ensure m s) (started_run m.runs s now)

-- `RestartByTicket`, with the time that it reads at its end.
unfoldable pub restart_by_ticket : RunManager → ℕ → String → Restarted
restart_by_ticket m now ticket = carry_out m now (plan_restart m ticket)

-- `CancelByTicket`; the run queries are there in every caller.
unfoldable pub cancel_by_ticket :
    RunManager → RunQueries → String → String → Result PortError (Unit {0})
cancel_by_ticket m q ticket reason = q.find_run_by_ticket ticket >>= λ r. m.cancel_port r.id reason
