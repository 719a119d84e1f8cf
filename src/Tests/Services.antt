-- ===== src/Tests/Services.antt =====
-- A workflow service with one workflow and one repo, and submissions to it.
use relay_flow.Prelude.{true, false, none, some, [], ◌∷◌, ok, refl}
use relay_flow.Store.Disk.{works, fails, crashes}
use relay_flow.Store.Recovery.{Ends}
use relay_flow.Store.Replace.{Either}
use relay_flow.Registry.Refines.{Shows, replaced, removed, run, replay, shows, run_refines}
use relay_flow.Service.{Ports, State, submit, remove_workflow}
use relay_flow.Service.Submits.{Submitted, stored_pair, submit-Ends}
use relay_flow.Service.Removes.{Removed, absent_pair, remove_workflow-Ends}
use relay_flow.Tests.Workflows.{demo}
use relay_flow.Tests.Managers.{app}
use relay_flow.Tests.Stores.{old, at_rest, sum}

-- Whatever the text says, it parses as the definition.
abbrev pub ports : Ports
ports = record {
  parse = λ yaml. ok demo;
  sum = sum;
  has_active = λ name. ok false;
  validate_task_config = none;
  validate_submission = some (λ w. ok tt);
  wired = true;
}

abbrev pub server : State
server = record { registry = ("demo", demo) ∷ []; repos = ("app", app) ∷ [] }

-- The same, with a task system that has lost its capabilities, so that nothing binds.
abbrev unbindable : State
unbindable = record {
  registry = ("demo", demo) ∷ [];
  repos = ("app", record app { task_system = none }) ∷ [];
}

submit-Ends_example :
    Ends
      (λ a x. Submitted ports server "new" old a.result a.state x)
      (λ e x. ⊥)
      (Either old (stored_pair ports "new"))
      (submit ports server "new" at_rest (works ∷ works ∷ works ∷ works ∷ works ∷ fails ∷ []))
submit-Ends_example =
    submit-Ends ports server "new" at_rest (works ∷ works ∷ works ∷ works ∷ works ∷ fails ∷ [])
      (refl, refl, tt) tt refl

remove_workflow-Ends_example :
    Ends
      (λ a x. Removed ports unbindable "demo" old a.result a.state x)
      (λ e x. ⊥)
      (Either old absent_pair)
      (remove_workflow ports unbindable "demo" at_rest (works ∷ works ∷ works ∷ crashes ∷ []))
remove_workflow-Ends_example =
    remove_workflow-Ends ports unbindable "demo" at_rest (works ∷ works ∷ works ∷ crashes ∷ [])
      (refl, refl, tt) tt refl

empty-Shows : Shows [] (λ n. none)
empty-Shows = shows [] (λ n. none) tt (λ n. refl)

run_refines_example :
    Shows
      (run (replaced demo ∷ removed "x" ∷ []) [])
      (replay (replaced demo ∷ removed "x" ∷ []) (λ n. none))
run_refines_example = run_refines (replaced demo ∷ removed "x" ∷ []) [] (λ n. none) empty-Shows
