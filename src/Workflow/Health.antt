-- ===== src/Workflow/Health.antt =====
-- The trust states of internal/workflow/workflow.go: `IsRoutable` and the `Mark` methods. A nil
-- receiver is `none`: the methods leave it alone, and it is not routable.
use relay_flow.Prelude.{String, Bool, true, false, Option, none, some}
use relay_flow.Workflow.{Workflow, HealthStatus, unset, healthy, blocked, unverified, outdated}

abbrev routable_status : HealthStatus → Bool
routable_status unset = true
routable_status healthy = true
routable_status _ = false

unfoldable pub is_routable : Option Workflow → Bool
is_routable none = false
is_routable (some w) = routable_status w.status

unfoldable pub mark_healthy : Workflow → Workflow
mark_healthy w = record w { status = healthy; status_reason = ""; repair_command = "" }

unfoldable pub mark_blocked : String → String → Workflow → Workflow
mark_blocked reason repair w = record w {
  status = blocked;
  status_reason = reason;
  repair_command = repair;
}

unfoldable pub mark_unverified : String → String → Workflow → Workflow
mark_unverified reason repair w = record w {
  status = unverified;
  status_reason = reason;
  repair_command = repair;
}

unfoldable pub mark_outdated : String → String → Workflow → Workflow
mark_outdated reason repair w = record w {
  status = outdated;
  status_reason = reason;
  repair_command = repair;
}
