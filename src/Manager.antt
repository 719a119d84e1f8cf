-- ===== src/Manager.antt =====
-- internal/run/manager.go: `RunManager`, over the interfaces of the executor, the run queries and
-- the two registries. The gate, a lock held through each operation, has no counterpart: a call is one
-- step. What a call asks of the adapters and the executor is recorded in order.
pub mod Ensure
pub mod Restart
use relay_flow.Prelude.{ℕ, String, Bool, true, false, Option, none, some, List, Result}
use relay_flow.Run.{TicketRef, Start, Run}
use relay_flow.Workflow.{Workflow}
use relay_flow.Repo.{Repo, PortError}

-- `RunQueries`, as far as the manager uses it, with the answers at the time of the call.
pub record RunQueries : Type 0 where
  pub get_run : String → Result PortError Run
  pub find_run_by_ticket : String → Result PortError Run
  pub list_runs : String → String → String → Result PortError (List Run)

-- The fields of `RunManager`; what is nil is `none`. `NewRunID` and `NewAttemptRunID` of
-- internal/identity/identity.go, which escape their parts as URLs, are fields too.
pub record RunManager : Type 0 where
  pub ensure_port : Option (Start → Result PortError Bool)
  pub cancel_port : String → String → Result PortError (Unit {0})
  pub runs : Option RunQueries
  pub repos : Option (String → Option Repo)
  pub workflows : Option (String → Option Workflow)
  pub new_run_id : String → String → String → String
  pub new_attempt_run_id : String → ℕ → String
