-- ===== src/Run.antt =====
-- internal/run/run.go: lifecycle states, the identity of a run, what starts a run, and the read
-- model of a run. Times are numbers, and an identity is the text that the source holds.
pub mod States
use relay_flow.Prelude.{ℕ, String, Bool, Option}
use relay_flow.Workflow.{Workflow}

pub data State : Type 0 where
  starting running waiting blocked completed canceling canceled : State

-- `task.TicketRef`
pub record TicketRef : Type 0 where
  pub id : String
  pub key : String
  pub title : String

pub record RuntimePolicy : Type 0 where
  pub keep_terminals_alive : Bool
  pub keep_sessions_alive : Bool

pub record Start : Type 0 where
  pub id : String
  pub logical_id : String
  pub attempt_id : ℕ
  pub repo : String
  pub repo_path : String
  pub workflow : Workflow
  pub ticket : TicketRef
  pub runtime : RuntimePolicy

pub record RetryStatus : Type 0 where
  pub attempt : ℕ
  pub last_error : String
  pub next_retry_at : ℕ

pub record Run : Type 0 where
  pub id : String
  pub logical_id : String
  pub attempt_id : ℕ
  pub repo : String
  pub workflow : String
  pub ticket : TicketRef
  pub state : State
  pub current_node : String
  pub current_node_visit_id : String
  pub last_error : String
  pub retry : Option RetryStatus
  pub started_at : ℕ
  pub updated_at : ℕ
  pub finished_at : Option ℕ
