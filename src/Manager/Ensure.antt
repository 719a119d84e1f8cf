-- ===== src/Manager/Ensure.antt =====
-- `EnsureRun` of internal/run/manager.go.
pub mod Bindings
pub mod Calls
pub mod Candidates
pub mod Attempts
pub mod Starts
use relay_flow.Prelude.{
  ℕ, String, Bool, true, false, not, Option, none, some, List, [], ◌∷◌, ◌++◌, ◌+++◌, Result, ok,
  err, guard, ◌>>=◌, ◌>>◌, elem, ◌==◌, ◌&&◌, ◌||◌, eqb, ltb, if◌then◌else◌,
}
use relay_flow.Run.{State, canceling, TicketRef, Start, Run}
use relay_flow.Run.States.{active_state, terminal_state, same_state}
use relay_flow.Workflow.{Workflow}
use relay_flow.Workflow.Health.{is_routable}
use relay_flow.Repo.{
  Ticket, ref, WorkflowBinding, PortError, OwnershipCapabilities, TaskSystem, Repo,
}
use relay_flow.Manager.{RunManager, RunQueries}

pub data EnsureError : Type 0 where
  no_repo no_task_system no_workflow no_capabilities no_executor : EnsureError
  not_stored not_routable not_targeted claim_owner_mismatch : String → EnsureError
  ownership_failed list_failed claim_failed marker_failed executor_failed : PortError → EnsureError

-- The calls of the adapter and the executor.
pub data Call : Type 0 where
  validates claims : TicketRef → String → Call
  checks_marker : TicketRef → String → Call
  ensures : Start → Call

-- A result, and the calls made on the way to it.
pub record Traced (A : Type 0) : Type 0 where
  pub calls : List Call
  pub result : Result EnsureError A

abbrev pub settle : {A : Type 0} → Result EnsureError A → Traced A
settle r = record { calls = []; result = r }

abbrev pub continued : {A B : Type 0} → List Call → Result EnsureError A → (A → Traced B) → Traced B
continued cs (ok a) f = record { calls = cs ++ (f a).calls; result = (f a).result }
continued cs (err e) f = record { calls = cs; result = err e }

abbrev pub and_then : {A B : Type 0} → Traced A → (A → Traced B) → Traced B
and_then m f = continued m.calls m.result f

abbrev pub relabel :
    {A : Type 0} → (PortError → EnsureError) → Result PortError A → Result EnsureError A
relabel f (ok a) = ok a
relabel f (err e) = err (f e)

-- A call of a port, whose error is passed on under the caller's own.
abbrev pub ask : {A : Type 0} → Call → (PortError → EnsureError) → Result PortError A → Traced A
ask c f r = record { calls = c ∷ []; result = relabel f r }

abbrev pub required : {A : Type 0} → EnsureError → Option A → Result EnsureError A
required e none = err e
required e (some a) = ok a

-- `newerRun`
abbrev pub newer_run : Run → Run → Bool
newer_run candidate current =
    ltb current.started_at candidate.started_at
    || (eqb candidate.started_at current.started_at && ltb current.updated_at candidate.updated_at)

-- The loop over the candidates, which finds the newest and the newest active one.
abbrev pub normalized : String → Run → Run
normalized id r = record r {
  logical_id = if r.logical_id == "" then id else r.logical_id;
  attempt_id = if eqb r.attempt_id 0 then 1 else r.attempt_id;
}

abbrev pub keep_newer : Option Run → Run → Option Run
keep_newer none c = some c
keep_newer (some r) c = some (if newer_run c r then c else r)

abbrev pub is_current : Run → Bool
is_current c = active_state c.state && not (c.id == "")

abbrev pub keep_active : Option Run → Run → Option Run
keep_active a c = if is_current c then keep_newer a c else a

unfoldable pub scan_candidates :
    String → List Run → Option Run → Option Run → Option Run × Option Run
scan_candidates id [] latest active = (latest, active)
scan_candidates id (c ∷ cs) latest active =
    scan_candidates id cs (keep_newer latest (normalized id c))
      (keep_active active (normalized id c))

abbrev pub is_finished : Option Run → Bool
is_finished none = false
is_finished (some r) = same_state r.state canceling || terminal_state r.state

-- The workflow that the registry holds now.
abbrev pub current_workflow : RunManager → Workflow → Result EnsureError Workflow
current_workflow m w = elim m.workflows [
  | none ↦ ok w
  | some get ↦ required (not_stored w.name) (get w.name)
]

abbrev pub targets_repo : RunManager → String → Workflow → Bool
targets_repo m repo w = elim m.workflows [ none ↦ true | some get ↦ elem repo w.repos ]

unfoldable pub checked_workflow : RunManager → Repo → Workflow → Result EnsureError Workflow
checked_workflow m r w = do
  current ← current_workflow m w
  guard (is_routable (some current)) (not_routable current.name)
  guard (targets_repo m r.name current) (not_targeted current.name)
  ok current

-- The loop over the bindings: the first of the workflow that has an ownership matcher decides.
unfoldable pub binding_accepts : String → Ticket → List WorkflowBinding → Bool
binding_accepts name t [] = true
binding_accepts name t (b ∷ bs) =
    let rest = binding_accepts name t bs in
    if b.workflow.name == name then elim b.ownership [ none ↦ rest | some f ↦ f t ] else rest

unfoldable pub is_claimed : String → Ticket → Bool
is_claimed name t = elem ("wf:" +++ name) t.workflow_claims

-- What is asked of a claimed ticket before any run is looked up.
unfoldable pub check_claim : OwnershipCapabilities → Repo → Workflow → Ticket → Traced (Unit {0})
check_claim c r w t =
    if is_claimed w.name t
    then and_then
        (settle (guard (binding_accepts w.name t r.bindings) (claim_owner_mismatch t.key)))
        (λ u.
          ask (validates (ref t) w.name) ownership_failed
            (c.validate_ownership (ref t) w.name w.task_config))
    else settle (ok tt)

abbrev pub candidates : RunManager → Repo → Workflow → Ticket → Result EnsureError (List Run)
candidates m r w t = elim m.runs [
  | none ↦ ok []
  | some q ↦ relabel list_failed (q.list_runs r.name w.name t.key)
]

abbrev pub drop_flag : Result EnsureError Bool → Result EnsureError (Unit {0})
drop_flag (ok created) = ok tt
drop_flag (err e) = err e

-- `ensure`
unfoldable pub ensure : RunManager → Start → Traced (Unit {0})
ensure m s = elim m.ensure_port [
  | none ↦ settle (err no_executor)
  | some port ↦ record {
    calls = ensures s ∷ [];
    result = drop_flag (relabel executor_failed (port s));
  }
]

abbrev pub start_for : Repo → Workflow → Ticket → String → String → ℕ → Start
start_for r w t id logical attempt = record {
  id = id;
  logical_id = logical;
  attempt_id = attempt;
  repo = r.name;
  repo_path = r.path;
  workflow = w;
  ticket = ref t;
  runtime = record { keep_terminals_alive = false; keep_sessions_alive = false };
}

-- `CancellationMarker`
abbrev pub cancellation_marker : String → String
cancellation_marker id = id +++ ":cancellation"

-- A ticket without an attempt that matters: it is claimed first, or its cancellation marker is read.
unfoldable pub first_attempt :
    RunManager → TaskSystem → OwnershipCapabilities → Repo → Workflow → Ticket → Traced (Unit {0})
first_attempt m ts c r w t =
    let id = m.new_run_id r.name w.name t.key in
    let start = ensure m (start_for r w t id id 1) in
    if is_claimed w.name t
    then and_then
        (ask (checks_marker (ref t) (cancellation_marker id)) marker_failed
          (ts.has_comment (ref t) (cancellation_marker id)))
        (λ marked. if marked then settle (ok tt) else start)
    else and_then
        (ask (claims (ref t) w.name) claim_failed (c.claim_if_owned (ref t) w.name w.task_config))
        (λ u. start)

unfoldable pub ensure_attempt :
    RunManager
    → TaskSystem
    → OwnershipCapabilities
    → Repo
    → Workflow
    → Ticket
    → Option Run × Option Run
    → Traced (Unit {0})
ensure_attempt m ts c r w t (latest, active) = elim active [
  | some a ↦ ensure m (start_for r w t a.id a.logical_id a.attempt_id)
  | none ↦ if is_finished latest then settle (ok tt) else first_attempt m ts c r w t
]

unfoldable pub ensure_for :
    RunManager → TaskSystem → OwnershipCapabilities → Repo → Workflow → Ticket → Traced (Unit {0})
ensure_for m ts c r w t = and_then (check_claim c r w t) (λ u.
    and_then (settle (candidates m r w t)) (λ cs.
      ensure_attempt m ts c r w t
        (scan_candidates (m.new_run_id r.name w.name t.key) cs none none)))

-- `EnsureRun`, with its checks for what is nil in the order of the source.
abbrev pub ensure_with :
    RunManager
    → Repo
    → Workflow
    → Ticket
    → TaskSystem
    → Option OwnershipCapabilities
    → Traced (Unit {0})
ensure_with m r w t ts none = settle (err no_capabilities)
ensure_with m r w t ts (some c) =
    and_then (settle (checked_workflow m r w)) (λ current. ensure_for m ts c r current t)

abbrev ensure_workflow :
    RunManager → Repo → Option Workflow → Ticket → TaskSystem → Traced (Unit {0})
ensure_workflow m r none t ts = settle (err no_workflow)
ensure_workflow m r (some w) t ts = ensure_with m r w t ts ts.capabilities

abbrev pub ensure_in :
    RunManager → Repo → Option Workflow → Ticket → Option TaskSystem → Traced (Unit {0})
ensure_in m r wf t none = settle (err no_task_system)
ensure_in m r wf t (some ts) = ensure_workflow m r wf t ts

unfoldable pub ensure_run : RunManager → Option Repo → Option Workflow → Ticket → Traced (Unit {0})
ensure_run m none wf t = settle (err no_repo)
ensure_run m (some r) wf t = ensure_in m r wf t r.task_system
