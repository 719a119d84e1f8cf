-- ===== src/Tests/Workflows.antt =====
-- A small workflow, in the shape of those that internal/workflow/workflow_test.go uses.
use relay_flow.Prelude.{
  ℕ, String, true, some, List, [], ◌∷◌, ◌++◌, Memᴰ, ok, err, ◌≡◌, ◌↔◌, refl, ==-ne,
}
use relay_flow.Config.{
  null, scalar, sequence, RawValues, entry, nil, cons, field, index, Key, reject_null_value,
  reject_null_values, reject_null_elements,
}
use relay_flow.Config.Nulls.{NullAmong, reject_null_values_exact}
use relay_flow.Workflow.{Node, Route, Workflow, unset, zero_node, start_target, node_agent, routes}
use relay_flow.Workflow.Name.{codes, matches_name}
use relay_flow.Workflow.Nudge.{NudgeTemplateData, segments, known_nudge_var, render_nudge}
use relay_flow.Workflow.Nudge.Renders.{Renders}
use relay_flow.Workflow.Reach.{adj, walk, edge_count, visited_from_start, first_unvisited}
use relay_flow.Workflow.Reach.Walk.{Reachable, visited_from_start_exact}
use relay_flow.Workflow.Report.{Report, none_text, validate_report}
use relay_flow.Workflow.Report.Exact.{IsLegal, validate_report_iff}
use relay_flow.Workflow.Validate.{
  validate_start, validate_end, validate_work_node, check_repos, validate_reachability, validate,
}
use relay_flow.Workflow.Validate.Spec.{IsValid}
use relay_flow.Workflow.Validate.Exact.{validate_iff}
use relay_flow.Workflow.Accepted.{
  LeadsInto, accepted_report-LeadsInto, start_target-LeadsInto, work_prompt-Renders,
}

abbrev to : String → Route
to target = record { target = target; when = "" }

abbrev work : List Route → List Route → Node
work success failure = record zero_node {
  type = node_agent;
  agent = "coder";
  description = "work";
  nudge_prompt = "do {{ticket}}";
  on_success = success;
  on_failure = failure;
}

abbrev pub demo : Workflow
demo = record {
  name = "demo";
  repos = "app" ∷ [];
  cleanup_runner_on_end = true;
  task_config = RawValues.end;
  nodes =
      ("start", record zero_node { on_success = to "build" ∷ [] })
      ∷ ("build", work (to "review" ∷ []) (to "build" ∷ []))
      ∷ ("review", work (to "end" ∷ []) (to "build" ∷ []))
      ∷ ("end", zero_node)
      ∷ [];
  status = unset;
  status_reason = "";
  repair_command = "";
}

abbrev data_of_demo : NudgeTemplateData
data_of_demo = record {
  task_system = "jira";
  ticket = "K-1";
  workflow = "demo";
  repo = "app";
  node = "build";
  mailbox = "m";
  next_steps = "review";
}

pub demo-validate : validate demo ≡ ok tt
unfolding validate matches_name check_repos validate_start validate_end validate_work_node segments
    known_nudge_var validate_reachability visited_from_start first_unvisited adj walk edge_count
demo-validate = refl

abbrev pub report_to_review : Report
report_to_review = record {
  status = "success";
  next_step = "review";
  summary = record {
    completed = "all";
    commits = "1";
    not_completed = none_text;
    issues_discovered = none_text;
    verification = "tests";
    notes = none_text;
  };
  feedback = record {
    reason_for_next_step = "done";
    required_actions = "look";
    relevant_context = none_text;
    expected_result = "ok";
  };
}

report-accepted : validate_report demo "build" report_to_review ≡ ok tt
unfolding validate_report routes
report-accepted = refl

-- A failure may not end the run.
failure_to_end_refused : ¬ (
    validate_report demo "review"
      (record report_to_review { status = "failure"; next_step = "end" })
    ≡ ok tt)
unfolding validate_report routes
failure_to_end_refused h = cc

validate_iff_example : (validate demo ≡ ok tt) ↔ IsValid demo
validate_iff_example = validate_iff demo

visited_from_start_exact_example :
    (out : List String) × (visited_from_start demo.nodes ≡ some out)
    × ((a : String) → Memᴰ a out ↔ Reachable demo.nodes a)
visited_from_start_exact_example = visited_from_start_exact demo.nodes

validate_report_iff_example :
    (validate_report demo "build" report_to_review ≡ ok tt) ↔ IsLegal demo "build" report_to_review
validate_report_iff_example = validate_report_iff demo "build" report_to_review

accepted_report-LeadsInto_example : LeadsInto demo "review"
accepted_report-LeadsInto_example =
    accepted_report-LeadsInto demo "build" report_to_review demo-validate report-accepted

start_target-LeadsInto_example : (t : String) × (start_target demo ≡ ok t) × LeadsInto demo t
start_target-LeadsInto_example = start_target-LeadsInto demo demo-validate

work_prompt-Renders_example :
    (out : List ℕ) × (render_nudge demo "build" data_of_demo ≡ ok out)
    × Renders data_of_demo (codes "do {{ticket}}") out
work_prompt-Renders_example =
    work_prompt-Renders demo "build" data_of_demo demo-validate refl (==-ne refl) (==-ne refl)

abbrev nested : RawValues
nested = entry "labels" (sequence (cons (scalar "a") (cons null nil))) RawValues.end

reject_null_values_exact_example :
    (reject_null_values nested [] ≡ ok tt ↔ ((k : Key) → ¬ NullAmong nested k))
    × ((e : Key)
        → reject_null_values nested [] ≡ err e
        → (k : Key) × (e ≡ [] ++ k) × NullAmong nested k)
reject_null_values_exact_example = reject_null_values_exact nested []

null_found : reject_null_values nested [] ≡ err (field "labels" ∷ index 1 ∷ [])
unfolding reject_null_value reject_null_values reject_null_elements
null_found = refl
