-- ===== src/Repo/Bind.antt =====
-- `bindWorkflows` of internal/repo/repo.go: the bindings of all repos, from the workflows. `byRepo`
-- is the list of the pairs of a repo's name and a binding, in the order of the appends; the entries
-- that a workflow has made are dropped when it fails, so they are added when it is through.
pub mod Whole
pub mod Forms
use Prim.Native.String.{compare}
use text.Mathlib.Text.{is_le}
use relay_flow.Prelude.{
  ℕ, String, Bool, true, false, Option, none, some, List, [], ◌∷◌, ◌++◌, Result, ok, err, ◌>>=◌,
  ◌>>◌, ◌==◌, if◌then◌else◌,
}
use relay_flow.Workflow.{Workflow}
use relay_flow.Workflow.Health.{is_routable, mark_blocked}
use relay_flow.Repo.{Ticket, WorkflowBinding, PortError, OwnershipCapabilities, TaskSystem, Repo}

pub data BindError : Type 0 where
  unregistered no_system no_capabilities no_matcher : String → BindError
  filter_failed ownership_failed : String → PortError → BindError

abbrev pub present : {A : Type 0} → BindError → Option A → Result BindError A
present e none = err e
present e (some a) = ok a

abbrev pub compiled :
    {A : Type 0} → (PortError → BindError) → Result PortError A → Result BindError A
compiled f (ok a) = ok a
compiled f (err e) = err (f e)

-- One round of the loop over the repos of a workflow.
unfoldable pub bind_repo :
    (String → Option Repo) → Workflow → String → Result BindError WorkflowBinding
bind_repo get w name = do
  r ← present (unregistered name) (get name)
  ts ← present (no_system name) r.task_system
  matcher ← compiled (filter_failed name) (ts.compile_filter w.task_config)
  c ← present (no_capabilities name) ts.capabilities
  ownership ← compiled (ownership_failed name) (c.compile_ownership w.task_config)
  f ← present (no_matcher name) ownership
  ok (record { workflow = w; match_ticket = matcher; ownership = some f })

unfoldable pub bind_repos :
    (String → Option Repo)
    → Workflow
    → List String
    → Result BindError (List (String × WorkflowBinding))
bind_repos get w [] = ok []
bind_repos get w (name ∷ names) =
    bind_repo get w name >>= λ b. bind_repos get w names >>= λ bs. ok ((name, b) ∷ bs)

-- The strict form: the first error is returned.
unfoldable pub bind_strict :
    (String → Option Repo) → List Workflow → Result BindError (List (String × WorkflowBinding))
bind_strict get [] = ok []
bind_strict get (w ∷ ws) = elim (is_routable (some w)) [
  | false ↦ bind_strict get ws
  | true ↦ bind_repos get w w.repos >>= λ bs. bind_strict get ws >>= λ rest. ok (bs ++ rest)
]

-- The isolated form: the entries, and for each workflow that failed, as it is marked then, an issue.
pub record Bound : Type 0 where
  pub entries : List (String × WorkflowBinding)
  pub issues : List (Workflow × BindError)

abbrev pub isolate :
    (BindError → String)
    → Workflow
    → Result BindError (List (String × WorkflowBinding))
    → Bound
    → Bound
isolate text w (ok bs) rest = record { entries = bs ++ rest.entries; issues = rest.issues }
isolate text w (err e) rest = record {
  entries = rest.entries;
  issues = (mark_blocked (text e) w.repair_command w, e) ∷ rest.issues;
}

unfoldable pub bind_isolated : (BindError → String) → (String → Option Repo) → List Workflow → Bound
bind_isolated text get [] = record { entries = []; issues = [] }
bind_isolated text get (w ∷ ws) = elim (is_routable (some w)) [
  | false ↦ bind_isolated text get ws
  | true ↦ isolate text w (bind_repos get w w.repos) (bind_isolated text get ws)
]

-- The bindings of one repo, in the order of the workflows' names.
abbrev pub insert_by_name : WorkflowBinding → List WorkflowBinding → List WorkflowBinding
insert_by_name b [] = b ∷ []
insert_by_name b (c ∷ cs) =
    let rest = insert_by_name b cs in
    if is_le (compare b.workflow.name c.workflow.name) then b ∷ c ∷ cs else c ∷ rest

unfoldable pub bindings_of : String → List (String × WorkflowBinding) → List WorkflowBinding
bindings_of name [] = []
bindings_of name ((n, b) ∷ es) =
    let rest = bindings_of name es in if n == name then insert_by_name b rest else rest

-- What the end of `bindWorkflows` publishes for a repo.
unfoldable pub publish : List (String × WorkflowBinding) → Repo → Repo
publish es r = record r { bindings = bindings_of r.name es }
