-- ===== src/Workflow/Report.antt =====
-- internal/workflow/report.go: the structured report of a node and `ValidateReport`.
pub mod Filled
pub mod Exact
use relay_flow.Prelude.{
  String, Bool, true, false, not, Option, none, some, List, [], ◌∷◌, Result, ok, err, guard, each,
  ◌>>=◌, ◌>>◌, elem, lookup, ◌==◌, ◌&&◌, ◌||◌, if◌then◌else◌,
}
use relay_flow.Workflow.{
  Node, Route, Workflow, QueryError, routes, targets, outcome_success, outcome_failure, end_node,
}

-- The text of an intentionally empty section, `None` in the source.
abbrev pub none_text : String
none_text = "None"

pub record Summary : Type 0 where
  pub completed : String
  pub commits : String
  pub not_completed : String
  pub issues_discovered : String
  pub verification : String
  pub notes : String

pub record Feedback : Type 0 where
  pub reason_for_next_step : String
  pub required_actions : String
  pub relevant_context : String
  pub expected_result : String

pub record Report : Type 0 where
  pub status : String
  pub next_step : String
  pub summary : Summary
  pub feedback : Feedback

pub data ReportError : Type 0 where
  no_such_node : String → ReportError
  bad_status : String → ReportError
  empty_section : String → ReportError
  bad_query : QueryError → ReportError
  failure_to_end illegal_next_step : List String → ReportError
  feedback_at_end : ReportError

-- The table of sections that `ValidateReport` ranges over.
abbrev pub sections : Report → List (String × String)
sections r =
    ("summary.completed", r.summary.completed)
    ∷ ("summary.commits", r.summary.commits)
    ∷ ("summary.notCompleted", r.summary.not_completed)
    ∷ ("summary.issuesDiscovered", r.summary.issues_discovered)
    ∷ ("summary.verification", r.summary.verification)
    ∷ ("summary.notes", r.summary.notes)
    ∷ ("feedback.reasonForNextStep", r.feedback.reason_for_next_step)
    ∷ ("feedback.requiredActions", r.feedback.required_actions)
    ∷ ("feedback.relevantContext", r.feedback.relevant_context)
    ∷ ("feedback.expectedResult", r.feedback.expected_result)
    ∷ ("nextStep", r.next_step)
    ∷ []

abbrev check_section : String × String → Result ReportError (Unit {0})
check_section (name, value) = guard (not (value == "")) (empty_section name)

abbrev is_known : Option Node → Bool
is_known none = false
is_known (some n) = true

abbrev is_outcome : String → Bool
is_outcome s = s == outcome_success || s == outcome_failure

abbrev is_blank_feedback : Feedback → Bool
is_blank_feedback f =
    f.reason_for_next_step == none_text
    && f.required_actions == none_text
    && f.relevant_context == none_text
    && f.expected_result == none_text

-- The error of `Routes` as one of `ValidateReport`.
abbrev query : Result QueryError (List Route) → Result ReportError (List Route)
query (ok rs) = ok rs
query (err e) = err (bad_query e)

-- What is checked of the next step, against the routes for the reported outcome. The lists in the
-- errors are sorted in the source, to make the message deterministic.
abbrev check_next : Report → List Route → Result ReportError (Unit {0})
check_next r rs = do
  guard (not (r.status == outcome_failure && r.next_step == end_node)) (failure_to_end (targets rs))
  guard (elem r.next_step (targets rs)) (illegal_next_step (targets rs))
  guard (not (r.next_step == end_node) || is_blank_feedback r.feedback) feedback_at_end

unfoldable pub validate_report : Workflow → String → Report → Result ReportError (Unit {0})
validate_report w node r = do
  guard (is_known (lookup node w.nodes)) (no_such_node node)
  guard (is_outcome r.status) (bad_status r.status)
  each check_section (sections r)
  rs ← query (routes w node r.status)
  check_next r rs
