-- ===== src/Tests/Details.antt =====
-- The pending steps of a run of the small workflow: at `build`, and at `start`, whose route it has
-- selected.
use relay_flow.Prelude.{ℕ, String, some, List, [], ◌∷◌, map, Option, ◌≡◌, refl}
use relay_flow.Run.{running, Run}
use relay_flow.Projection.Runs.{scan_run, started_row}
use relay_flow.Projection.Steps.{succeeded, StepEntry}
use relay_flow.Detail.{
  RunDetail, reached, next_sequence, current_step, proposed, add_candidates, append_pending,
  append_all, add_pending_nodes, new_run_detail, pending_row,
}
use relay_flow.Detail.Derive.{derive_inspection_fields, progress_of, resources_of}
use relay_flow.Detail.Extends.{Extends, add_pending_nodes-Extends}
use relay_flow.Tests.Workflows.{demo}
use relay_flow.Tests.Rows.{start_of}
use relay_flow.Workflow.{zero_node}

abbrev run_at : String → Run
run_at node = record (scan_run (started_row (start_of "a") 1)) {
  state = running;
  current_node = node;
}

abbrev step_at : ℕ → String → String → StepEntry
step_at sequence node route = record (pending_row "a" sequence node zero_node) {
  status = succeeded;
  route = route;
}

-- Both targets are shown: `build` itself was reached.
abbrev at_build : RunDetail
at_build = record (new_run_detail (run_at "build")) {
  steps = step_at 0 "start" "build" ∷ step_at 1 "build" "" ∷ [];
}

abbrev at_start : RunDetail
at_start = record (new_run_detail (run_at "start")) { steps = step_at 0 "start" "build" ∷ [] }

abbrev shown : Option RunDetail → Option (List (String × ℕ))
shown d = elim d [
  | Option.none ↦ Option.none
  | some e ↦ some (map (λ s. (s.node, s.sequence)) e.steps)
]

shows_review :
    shown (add_pending_nodes at_build demo)
    ≡ some (("start", 0) ∷ ("build", 1) ∷ ("review", 2) ∷ [])
unfolding add_pending_nodes append_all add_candidates proposed current_step reached append_pending
    next_sequence
shows_review = refl

shows_build : shown (add_pending_nodes at_start demo) ≡ some (("start", 0) ∷ ("build", 1) ∷ [])
unfolding add_pending_nodes append_all add_candidates proposed current_step reached append_pending
    next_sequence
shows_build = refl

add_pending_nodes-Extends_example :
    (e : RunDetail) × (add_pending_nodes at_build demo ≡ some e) × Extends demo at_build e
add_pending_nodes-Extends_example = add_pending_nodes-Extends at_build demo

-- A step of 5 nanoseconds of the runner, and one that is pending.
abbrev timed : RunDetail
timed = record (new_run_detail (run_at "build")) {
  steps =
      record (step_at 0 "start" "") {
        started_at = some 2;
        finished_at = some 7;
        resource = "runner";
      }
      ∷ pending_row "a" 1 "build" zero_node
      ∷ [];
}

counts_timed :
    (derive_inspection_fields 9 timed).progress ≡ record { completed = 1; total = 2; pending = 1 }
unfolding derive_inspection_fields progress_of
counts_timed = refl

charges_timed : (derive_inspection_fields 9 timed).resources_duration.runner ≡ 5
unfolding derive_inspection_fields resources_of
charges_timed = refl
