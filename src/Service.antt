-- ===== src/Service.antt =====
-- internal/workflow/service.go: `Submit` and `Remove` over the store and the registry, and `Rebind` as
-- cmd/relay-flow/serve.go wires it. `Gate` is held through a whole call, so a call is one step of the
-- server, except where the process ends in it. The files are those of the workflow in question.
pub mod Bindings
pub mod Outcomes
pub mod Changes
pub mod Accepts
pub mod WayBack
pub mod Submits
pub mod Removes
pub mod Restart
use relay_flow.Prelude.{
  ℕ, String, Bool, true, false, Option, none, some, List, [], ◌∷◌, map, Result, ok, err, guard,
  each, ◌>>=◌, ◌>>◌, lookup, not,
}
use relay_flow.Workflow.{Workflow}
use relay_flow.Workflow.Health.{mark_healthy}
use relay_flow.Workflow.Validate.{ValidateError, validate}
use relay_flow.Repo.{WorkflowBinding, Repo}
use relay_flow.Repo.Bind.{BindError, bind_strict, publish}
use relay_flow.Registry
use relay_flow.Registry.{Entries, replace, list}
use relay_flow.Store.Disk.{Fate, Disk, FileSnapshot, StoreError, Ran, returned, stopped, Exec, pure}
use relay_flow.Store.Files.{snapshot, put, remove, restore_pair, exists}

pub data ServiceError : Type 0 where
  parse_failed not_found : String → ServiceError
  invalid : ValidateError → ServiceError
  unregistered_repo : String → String → ServiceError
  task_config_rejected active_check_failed submission_rejected : String → ServiceError
  has_active_runs : String → ServiceError
  storage : StoreError → ServiceError
  rebind_failed : BindError → ServiceError
  rollback_incomplete :
      BindError → Result StoreError (Unit {0}) → Result BindError (Unit {0}) → ServiceError

-- What the service is given: `Parse` over the YAML library, the text of the SHA-256 sum, the query of
-- the executor and the callbacks; a callback that is nil is `none`, and `wired` is whether `Rebind` is
-- set. The task systems of the repos answer the same throughout one call.
pub record Ports : Type 0 where
  pub parse : String → Result String Workflow
  pub sum : String → String
  pub has_active : String → Result String Bool
  pub validate_task_config : Option (Workflow → Result String (Unit {0}))
  pub validate_submission : Option (Workflow → Result String (Unit {0}))
  pub wired : Bool

-- The memory of the server that the service touches: the workflows, and the repos with what is
-- published for them.
pub record State : Type 0 where
  pub registry : Entries
  pub repos : List (String × Repo)

pub record Reply (A : Type 0) : Type 0 where
  pub result : Result ServiceError A
  pub state : State

abbrev pub labelled : {E A : Type 0} → (E → ServiceError) → Result E A → Result ServiceError A
labelled f (ok a) = ok a
labelled f (err e) = err (f e)

abbrev pub optional :
    Option (Workflow → Result String (Unit {0})) → Workflow → Result String (Unit {0})
optional none w = ok tt
optional (some f) w = f w

abbrev pub repo_exists : List (String × Repo) → String → Bool
repo_exists repos name = elim (lookup name repos) [ none ↦ false | some r ↦ true ]

-- `HasActiveWorkflow` and its refusal.
abbrev pub check_active : Ports → String → Result ServiceError (Unit {0})
check_active p name = labelled active_check_failed (p.has_active name) >>= λ active.
    guard (not active) (has_active_runs name)

-- The checks of `Submit` before it touches the store.
unfoldable pub check_submission : Ports → State → String → Result ServiceError Workflow
check_submission p st yaml = do
  w ← labelled parse_failed (p.parse yaml)
  labelled invalid (validate w)
  each (λ r. guard (repo_exists st.repos r) (unregistered_repo w.name r)) w.repos
  labelled task_config_rejected (optional p.validate_task_config w)
  check_active p w.name
  labelled submission_rejected (optional p.validate_submission w)
  ok w

-- `BindWorkflows(Registry().List())`: on an error nothing is published.
abbrev pub published : List (String × WorkflowBinding) → List (String × Repo) → List (String × Repo)
published es [] = []
published es ((name, r) ∷ rs) = (name, publish es r) ∷ published es rs

abbrev pub rebound :
    State → Result BindError (List (String × WorkflowBinding)) → Result BindError (Unit {0}) × State
rebound st (ok es) = (ok tt, record st { repos = published es st.repos })
rebound st (err e) = (err e, st)

unfoldable pub rebind : Bool → State → Result BindError (Unit {0}) × State
rebind false st = (ok tt, st)
rebind true st = rebound st (bind_strict (λ name. lookup name st.repos) (list st.registry))

-- What follows a call whose error the caller keeps.
abbrev pub caught : {A B : Type 0} → Ran A → (Result StoreError A → Exec B) → Ran B
caught (returned r d s) k = k r d s
caught (stopped d) k = stopped d

abbrev pub attempt : {A B : Type 0} → Exec A → (Result StoreError A → Exec B) → Exec B
attempt m k d s = caught (m d s) k

abbrev pub reply : {A : Type 0} → Result ServiceError A → State → Exec (Reply A)
reply r st = pure (record { result = r; state = st })

abbrev pub rebind_error :
    BindError → Result StoreError (Unit {0}) → Result BindError (Unit {0}) → ServiceError
rebind_error e (ok _) (ok _) = rebind_failed e
rebind_error e files bindings = rollback_incomplete e files bindings

-- The registry entry from before a submission, and from before a removal.
abbrev pub unreplace : String → Option Workflow → Entries → Entries
unreplace name none m = Registry.remove name m
unreplace name (some w) m = replace w m

abbrev pub unremove : Option Workflow → Entries → Entries
unremove none m = m
unremove (some w) m = replace w m

-- The failed rebind after a change: the files, the registry and the bindings go back.
abbrev pub undo :
    {A : Type 0} → Ports → (Entries → Entries) → FileSnapshot → BindError → State → Exec (Reply A)
undo p back files e st = attempt (restore_pair files) λ restored.
    let (bound, st') = rebind p.wired (record st { registry = back st.registry }) in
    reply (err (rebind_error e restored bound)) st'

-- The rebind after a change.
abbrev pub commit :
    {A : Type 0}
    → Ports
    → (Entries → Entries)
    → FileSnapshot
    → A
    → Result BindError (Unit {0}) × State
    → Exec (Reply A)
commit p back files a (ok tt, st) = reply (ok a) st
commit p back files a (err e, st) = undo p back files e st

-- A write of the store, and the rebind after it; then with the snapshot before it.
abbrev pub change_from :
    {A : Type 0}
    → Ports
    → State
    → Exec (Unit {0})
    → (Entries → Entries)
    → (Entries → Entries)
    → A
    → FileSnapshot
    → Exec (Reply A)
change_from p st write forth back a files = attempt write λ wrote. elim wrote [
  | err e ↦ reply (err (storage e)) st
  | ok _ ↦ commit p back files a (rebind p.wired (record st { registry = forth st.registry }))
]

abbrev pub change :
    {A : Type 0}
    → Ports
    → State
    → Exec (Unit {0})
    → (Entries → Entries)
    → (Entries → Entries)
    → A
    → Exec (Reply A)
change p st write forth back a = attempt snapshot λ before. elim before [
  | err e ↦ reply (err (storage e)) st
  | ok files ↦ change_from p st write forth back a files
]

abbrev pub submit_checked :
    Ports → State → String → Result ServiceError Workflow → Exec (Reply Workflow)
submit_checked p st yaml (err e) = reply (err e) st
submit_checked p st yaml (ok w) =
    let accepted = mark_healthy w in
    change p st (put p.sum yaml) (replace accepted)
      (unreplace w.name (Registry.get w.name st.registry)) accepted

-- `Submit`
unfoldable pub submit : Ports → State → String → Exec (Reply Workflow)
submit p st yaml = submit_checked p st yaml (check_submission p st yaml)

abbrev pub remove_checked :
    Ports → State → String → Result ServiceError (Unit {0}) → Exec (Reply (Unit {0}))
remove_checked p st name (err e) = reply (err e) st
remove_checked p st name (ok _) =
    change p st remove (Registry.remove name) (unremove (Registry.get name st.registry)) tt

-- `Remove`
unfoldable pub remove_workflow : Ports → State → String → Exec (Reply (Unit {0}))
remove_workflow p st name = remove_checked p st name (check_active p name)

-- `Get`
unfoldable pub get_workflow : State → String → Result ServiceError Workflow
get_workflow st name = elim (Registry.get name st.registry) [
  | none ↦ err (not_found name)
  | some w ↦ ok w
]

-- `List`
abbrev pub list_workflows : State → List Workflow
list_workflows st = list st.registry
