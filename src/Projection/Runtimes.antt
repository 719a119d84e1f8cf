-- ===== src/Projection/Runtimes.antt =====
-- The tables `relay_node_runtime`, `relay_node_sessions` and `relay_processed_reports` of
-- internal/execution/projection/projection.go. A nullable text column holds "" for NULL.
use relay_flow.Prelude.{
  ℕ, String, Bool, false, Option, none, some, List, ◌==◌, ◌&&◌, eqb, if◌then◌else◌,
}
use relay_flow.Projection.Table.{update_where, affected, find, upsert, insert_new}

-- `NodeRuntime`
pub record NodeRuntime : Type 0 where
  pub run_id : String
  pub node : String
  pub terminal_id : String
  pub session_id : String
  pub node_visit_id : String
  pub updated_at : ℕ

pub record SessionRow : Type 0 where
  pub run_id : String
  pub node : String
  pub session_id : String
  pub node_visit_id : String
  pub created_at : ℕ

pub record ReportRow : Type 0 where
  pub run_id : String
  pub report_id : String
  pub node_visit_id : String
  pub created_at : ℕ

abbrev pub at_node : String → String → NodeRuntime → Bool
at_node id node r = r.run_id == id && r.node == node

abbrev pub at_visit : String → String → String → NodeRuntime → Bool
at_visit id node visit r = at_node id node r && r.node_visit_id == visit

-- `getNodeRuntime`
unfoldable pub get_node_runtime : String → String → List NodeRuntime → Option NodeRuntime
unfolding find
get_node_runtime id node = find (at_node id node)

-- `loadNodeRuntime`: an empty binding for a node that was not seen.
unfoldable pub load_node_runtime : String → String → List NodeRuntime → NodeRuntime
unfolding get_node_runtime
load_node_runtime id node rows = elim (get_node_runtime id node rows) [
  | none ↦ record {
    run_id = id;
    node = node;
    terminal_id = "";
    session_id = "";
    node_visit_id = "";
    updated_at = 0;
  }
  | some r ↦ r
]

-- `updateNodeRuntime`
unfoldable pub update_node_runtime : NodeRuntime → ℕ → List NodeRuntime → List NodeRuntime
unfolding upsert update_where find
update_node_runtime rt now =
    upsert (at_node rt.run_id rt.node)
      (λ r. record r {
        terminal_id = rt.terminal_id;
        session_id = rt.session_id;
        node_visit_id = rt.node_visit_id;
        updated_at = now;
      })
      (record rt { updated_at = now })

-- `updateNodeRuntimeVisit`, and the second statement of `updateNode`: the handles stay.
unfoldable pub update_node_runtime_visit :
    String → String → String → ℕ → List NodeRuntime → List NodeRuntime
unfolding upsert update_where find
update_node_runtime_visit id node visit now =
    upsert (at_node id node) (λ r. record r { node_visit_id = visit; updated_at = now })
      (record {
        run_id = id;
        node = node;
        terminal_id = "";
        session_id = "";
        node_visit_id = visit;
        updated_at = now;
      })

-- `nodeRuntimeVisitIsCurrent`
unfoldable pub node_runtime_visit_is_current : String → String → String → List NodeRuntime → Bool
node_runtime_visit_is_current id node visit rows = eqb (affected (at_visit id node visit) rows) 1

-- `replaceNodeRuntime`; `none` is the error that the visit is not current.
unfoldable pub replace_node_runtime :
    String
    → String
    → String
    → String
    → String
    → String
    → ℕ
    → List NodeRuntime
    → Option (List NodeRuntime)
unfolding update_where affected
replace_node_runtime id node visit terminal previous session now rows =
    if eqb (affected (at_visit id node visit) rows) 1
    then some (
        update_where (at_visit id node visit)
          (λ r. record r {
            terminal_id = terminal;
            session_id = if r.session_id == previous then session else r.session_id;
            updated_at = now;
          })
          rows)
    else none

-- `clearNodeRuntime`
unfoldable pub clear_node_runtime :
    String → String → Bool → Bool → ℕ → List NodeRuntime → List NodeRuntime
unfolding update_where
clear_node_runtime id node clear_terminal clear_session now = update_where (at_node id node) (λ r.
    record r {
      terminal_id = if clear_terminal then "" else r.terminal_id;
      session_id = if clear_session then "" else r.session_id;
      updated_at = now;
    })

-- `NodeRuntimeRegistration`
pub record Registration : Type 0 where
  pub run_id : String
  pub node : String
  pub session_id : String

abbrev pub is_session : Registration → SessionRow → Bool
is_session g s = s.run_id == g.run_id && s.node == g.node && s.session_id == g.session_id

abbrev pub session_row : Registration → String → ℕ → SessionRow
session_row g visit now = record {
  run_id = g.run_id;
  node = g.node;
  session_id = g.session_id;
  node_visit_id = visit;
  created_at = now;
}

-- What `registerNodeSession` leaves: the two tables, and whether the session was accepted.
pub record Registered : Type 0 where
  pub runtimes : List NodeRuntime
  pub sessions : List SessionRow
  pub accepted : Bool

-- The part of `registerNodeSession` after the session row is in the table. The visit that the row
-- is bound to is read back; without the row (which the insert excludes) the code returns an error,
-- and nothing is committed.
abbrev pub bind_session :
    Registration → String → ℕ → List NodeRuntime → List SessionRow → List SessionRow → Registered
bind_session g current now runtimes sessions sessions' = elim (find (is_session g) sessions') [
  | none ↦ record { runtimes = runtimes; sessions = sessions; accepted = false }
  | some s ↦
      if s.node_visit_id == current
      then record {
        runtimes =
            update_where (at_visit g.run_id g.node s.node_visit_id)
              (λ r. record r { session_id = g.session_id; updated_at = now }) runtimes;
        sessions = sessions';
        accepted = eqb (affected (at_visit g.run_id g.node s.node_visit_id) runtimes) 1;
      }
      else record { runtimes = runtimes; sessions = sessions'; accepted = false }
]

unfoldable pub register_node_session :
    Registration → ℕ → List NodeRuntime → List SessionRow → Registered
unfolding find update_where affected insert_new
register_node_session g now runtimes sessions = elim (find (at_node g.run_id g.node) runtimes) [
  | none ↦ record { runtimes = runtimes; sessions = sessions; accepted = false }
  | some r ↦
      bind_session g r.node_visit_id now runtimes sessions
        (insert_new (is_session g) (session_row g r.node_visit_id now) sessions)
]

abbrev pub is_report : String → String → ReportRow → Bool
is_report id report_id r = r.run_id == id && r.report_id == report_id

-- `hasProcessedReport`
unfoldable pub has_processed_report : String → String → List ReportRow → Bool
unfolding affected
has_processed_report id report_id rows = eqb (affected (is_report id report_id) rows) 1

-- `recordProcessedReport`
unfoldable pub record_processed_report :
    String → String → String → ℕ → List ReportRow → List ReportRow
unfolding insert_new
record_processed_report id visit report_id now =
    insert_new (is_report id report_id)
      (record { run_id = id; report_id = report_id; node_visit_id = visit; created_at = now })
