-- ===== src/Service/Bindings.antt =====
-- `Rebind` of internal/workflow/service.go: the bindings of the repos are those that the strict form of
-- `bindWorkflows` makes of the registry.
use relay_flow.Prelude.{
  String, Bool, true, false, Option-cases, some, List, [], ◌∷◌, Result, ok, err, lookup, ◌==◌,
  Bool-cases, ◌≡◌, inl, inr, refl, ◌∙◌,
}
use mathlib.Core.Option
use relay_flow.Workflow.{Workflow}
use relay_flow.Workflow.Health.{is_routable}
use relay_flow.Repo.{WorkflowBinding, Repo}
use relay_flow.Repo.Bind.{BindError, bind_repo, bind_repos, bind_strict, publish, bindings_of}
use relay_flow.Registry.{list}
use relay_flow.Service.{State, published, rebound, rebind}

-- Each repo has the bindings that are due to it.
abbrev pub HasBindings : List (String × WorkflowBinding) → List (String × Repo) → Type 0
HasBindings es [] = Unit
HasBindings es ((name, r) ∷ rs) = (r.bindings ≡ bindings_of r.name es) × HasBindings es rs

abbrev pub InSync : State → Type 0
InSync st =
    (es : List (String × WorkflowBinding)) × (bind_strict (λ name. lookup name st.repos)
        (list st.registry)
      ≡ ok es)
    × HasBindings es st.repos

-- The same, where `Rebind` is set.
abbrev pub Synced : Bool → State → Type 0
Synced false st = Unit
Synced true st = InSync st

published-HasBindings :
    (es : List (String × WorkflowBinding)) (rs : List (String × Repo))
    → HasBindings es (published es rs)
unfolding publish
published-HasBindings es [] = tt
published-HasBindings es ((n, r) ∷ rs) = (refl, published-HasBindings es rs)

lookup-published :
    (es : List (String × WorkflowBinding)) (rs : List (String × Repo)) (name : String)
    → lookup name (published es rs) ≡ Option.map (publish es) (lookup name rs)
lookup-published es [] name = refl
lookup-published es ((n, r) ∷ rs) name = elim (Bool-cases (n == name)) [
  | inl e ↦ rw e refl
  | inr e ↦ rw e (lookup-published es rs name)
]

-- Publishing touches nothing that binding reads.
module _ (es : List (String × WorkflowBinding)) (rs : List (String × Repo)) where
  bind_repo-published :
      (w : Workflow) (name : String)
      → bind_repo (λ n. lookup n (published es rs)) w name ≡ bind_repo (λ n. lookup n rs) w name
  unfolding bind_repo publish
  bind_repo-published w name = elim (Option-cases (lookup name rs)) [
    | inl n ↦ rw (lookup-published es rs name) (rw n refl)
    | inr (r, e) ↦ rw (lookup-published es rs name) (rw e refl)
  ]

  bind_repos-published :
      (w : Workflow) (names : List String)
      → bind_repos (λ n. lookup n (published es rs)) w names ≡ bind_repos (λ n. lookup n rs) w names
  unfolding bind_repos
  bind_repos-published w [] = refl
  bind_repos-published w (n ∷ ns) = simp (bind_repo-published w n, bind_repos-published w ns)

  bind_strict-published :
      (ws : List Workflow)
      → bind_strict (λ n. lookup n (published es rs)) ws ≡ bind_strict (λ n. lookup n rs) ws
  unfolding bind_strict
  bind_strict-published [] = refl
  bind_strict-published (w ∷ ws) = elim (Bool-cases (is_routable (some w))) [
    | inl e ↦ rw (e, bind_strict) (simp (bind_repos-published w w.repos, bind_strict-published ws))
    | inr e ↦ rw (e, bind_strict) (bind_strict-published ws)
  ]

-- How a rebind ends: it changes at most the bindings of the repos, and where it reports no error they
-- are those of the registry.
pub record Rebinds (wired : Bool) (st : State) (r : Result BindError (Unit {0})) (st' : State)
    : Type 0 where
  pub registry : st'.registry ≡ st.registry
  pub synced : r ≡ ok tt → Synced wired st'
  pub unchanged : (e : BindError) → r ≡ err e → st' ≡ st

rebound-Rebinds :
    (st : State) (r : Result BindError (List (String × WorkflowBinding)))
    → bind_strict (λ name. lookup name st.repos) (list st.registry) ≡ r
    → Rebinds true st (rebound st r).0 (rebound st r).1
rebound-Rebinds st (ok es) h = record {
  registry = refl;
  synced = λ _. (
    es,
    bind_strict-published es st.repos (list st.registry) ∙ h,
    published-HasBindings es st.repos,
  );
  unchanged = λ e k. cc;
}
rebound-Rebinds st (err e) h = record { registry = refl; synced = λ k. cc; unchanged = λ _ _. refl }

pub rebind_lem :
    (wired : Bool) (st : State) → Rebinds wired st (rebind wired st).0 (rebind wired st).1
unfolding rebind
rebind_lem false st = record { registry = refl; synced = λ _. tt; unchanged = λ e k. cc }
rebind_lem true st = rebound-Rebinds st _ refl
