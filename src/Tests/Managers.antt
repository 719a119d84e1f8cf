-- ===== src/Tests/Managers.antt =====
-- A repo with one bound workflow, the manager over it, and a ticket.
use relay_flow.Prelude.{
  ℕ, String, true, false, none, some, List, [], ◌∷◌, ◌+++◌, Memᴰ, ok, ◌≡◌, ◌↔◌, refl, ◌==◌,
}
use relay_flow.Run.{State, canceled, Run}
use relay_flow.Config.{RawValues}
use relay_flow.Workflow.Health.{is_routable}
use relay_flow.Repo.{Ticket, ref, TaskSystem, Repo}
use relay_flow.Prelude.{Option, if◌then◌else◌}
use relay_flow.Workflow.{Workflow}
use relay_flow.Repo.{WorkflowBinding}
use relay_flow.Workflow.Health.{is_routable}
use relay_flow.Repo.Bind.{BindError, bind_repo, bind_repos, bind_strict, bind_isolated}
use relay_flow.Repo.Bind.Whole.{IsWhole, bind_isolated-IsWhole}
use relay_flow.Repo.Bind.Forms.{bind_strict-bind_isolated}
use relay_flow.Router.{trim_claim, resolve_claim, resolve_workflow}
use relay_flow.Router.Exact.{RoutesTo, resolve_workflow_iff}
use relay_flow.Manager.{RunManager}
use relay_flow.Manager.Ensure.{
  ensures, checked_workflow, binding_accepts, is_claimed, check_claim, ensure, start_for,
  first_attempt, ensure_attempt, ensure_for, ensure_run, scan_candidates,
}
use relay_flow.Manager.Ensure.Starts.{Allowed, ensure_run-Allowed}
use relay_flow.Manager.Restart.{starts, next_attempt, fresh_attempt, decide_restart, plan_restart}
use relay_flow.Manager.Restart.Attempts.{Restarts, plan_restart-Restarts}
use relay_flow.Tests.Workflows.{demo}

abbrev pub jira : TaskSystem
jira = record {
  capabilities = some (record {
    validate_ownership = λ t w c. ok tt;
    claim_if_owned = λ t w c. ok tt;
    compile_ownership = λ c. ok (some (λ t. true));
  });
  has_comment = λ t text. ok false;
  compile_filter = λ c. ok (some (λ t. true));
}

abbrev pub app : Repo
app = record {
  name = "app";
  path = "/app";
  task_system = some jira;
  bindings =
      record {
        workflow = demo;
        match_ticket = some (λ t. t.key == "K-1");
        ownership = some (λ t. true);
      }
      ∷ [];
}

abbrev ticket : Ticket
ticket = record { id = "1"; key = "K-1"; title = "T"; workflow_claims = []; fields = RawValues.end }

abbrev run_of : String → ℕ → State → Run
run_of id attempt state = record {
  id = id;
  logical_id = "app/demo/K-1";
  attempt_id = attempt;
  repo = "app";
  workflow = "demo";
  ticket = ref ticket;
  state = state;
  current_node = "";
  current_node_visit_id = "";
  last_error = "";
  retry = none;
  started_at = 1;
  updated_at = 2;
  finished_at = none;
}

-- The manager, where the queries list the runs.
abbrev manager : List Run → Run → RunManager
manager listed found = record {
  ensure_port = some (λ s. ok true);
  cancel_port = λ id reason. ok tt;
  runs = some (record {
    get_run = λ id. ok found;
    find_run_by_ticket = λ key. ok found;
    list_runs = λ r w k. ok listed;
  });
  repos = some (λ name. some app);
  workflows = some (λ name. some demo);
  new_run_id = λ r w k. r +++ ("/" +++ (w +++ ("/" +++ k)));
  new_attempt_run_id = λ id n. id +++ "~attempt~2";
}

resolve_workflow_iff_example :
    (resolve_workflow (some app) ticket ≡ ok demo) ↔ RoutesTo app ticket demo
resolve_workflow_iff_example = resolve_workflow_iff app ticket demo

resolves :
    resolve_workflow (some app) (record ticket { workflow_claims = "wf:demo" ∷ [] }) ≡ ok demo
unfolding resolve_workflow resolve_claim trim_claim
resolves = refl

first_start :
    Memᴰ
      (ensures (start_for app demo ticket "app/demo/K-1" "app/demo/K-1" 1))
      (ensure_run (manager [] (run_of "" 0 canceled)) (some app) (some demo) ticket).calls
unfolding ensure_run checked_workflow is_routable ensure_for check_claim is_claimed binding_accepts
    ensure_attempt scan_candidates first_attempt ensure
first_start = Memᴰ.tail (Memᴰ.head refl)

ensure_run-Allowed_example :
    Allowed
      (manager [] (run_of "" 0 canceled))
      app
      demo
      ticket
      (start_for app demo ticket "app/demo/K-1" "app/demo/K-1" 1)
ensure_run-Allowed_example =
    ensure_run-Allowed (manager [] (run_of "" 0 canceled)) app demo ticket
      (start_for app demo ticket "app/demo/K-1" "app/demo/K-1" 1) first_start

abbrev once_canceled : Run
once_canceled = run_of "app/demo/K-1" 1 canceled

second_start :
    plan_restart (manager (once_canceled ∷ []) once_canceled) "K-1"
    ≡ ok (starts (start_for app demo ticket "app/demo/K-1~attempt~2" "app/demo/K-1" 2))
unfolding plan_restart decide_restart fresh_attempt next_attempt is_routable
second_start = refl

plan_restart-Restarts_example :
    Restarts
      (manager (once_canceled ∷ []) once_canceled)
      "K-1"
      (start_for app demo ticket "app/demo/K-1~attempt~2" "app/demo/K-1" 2)
plan_restart-Restarts_example =
    plan_restart-Restarts (manager (once_canceled ∷ []) once_canceled) "K-1"
      (start_for app demo ticket "app/demo/K-1~attempt~2" "app/demo/K-1" 2) second_start

abbrev registry : String → Option Repo
registry name = if name == "app" then some app else none

abbrev reason_of : BindError → String
reason_of e = "cannot bind"

-- A workflow for a repo that is not there, before one that can be bound.
abbrev stray : Workflow
stray = record demo { name = "stray"; repos = "app" ∷ "gone" ∷ [] }

abbrev demo_entries : List (String × WorkflowBinding)
demo_entries =
    (
      "app",
      record { workflow = demo; match_ticket = some (λ t. true); ownership = some (λ t. true) },
    )
    ∷ []

stray_isolated : (bind_isolated reason_of registry (stray ∷ demo ∷ [])).entries ≡ demo_entries
unfolding bind_isolated bind_repos bind_repo is_routable
stray_isolated = refl

bind_isolated-IsWhole_example :
    IsWhole reason_of (stray ∷ demo ∷ []) (bind_isolated reason_of registry (stray ∷ demo ∷ []))
bind_isolated-IsWhole_example = bind_isolated-IsWhole reason_of registry (stray ∷ demo ∷ [])

demo_strict : bind_strict registry (demo ∷ []) ≡ ok demo_entries
unfolding bind_strict bind_repos bind_repo is_routable
demo_strict = refl

bind_strict-bind_isolated_example :
    bind_isolated reason_of registry (demo ∷ []) ≡ record { entries = demo_entries; issues = [] }
bind_strict-bind_isolated_example =
    bind_strict-bind_isolated reason_of registry (demo ∷ []) demo_strict
